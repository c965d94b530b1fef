-- ===== src/Store/Recovery/Order.antt =====
-- The order of the recovered queue: by creation time, then by id. `sort_by` is a stable sort, and so
-- is insertion from the back.
use mathlib.Core.List.{Perm}
use mathlib.Core.List.Perm
use zebra_tamer.Prelude.{
  ◌≡◌, ◌<◌, ◌≤◌, ◌⊎◌, inl, inr, Bool, true, ◌&&◌, ◌||◌, List, [], ◌∷◌, arith, leb, ltb, ◌==◌,
  if◌then◌else◌, Bool-cases, All,
}
use zebra_tamer.Model.Job.{Job}

abbrev pub comes_before : Job → Job → Bool
comes_before a b = ltb a.created_at b.created_at || (a.created_at == b.created_at && leb a.id b.id)

insert : Job → List Job → List Job
insert a [] = a ∷ []
insert a (b ∷ bs) = let rest = insert a bs in if comes_before a b then a ∷ b ∷ bs else b ∷ rest

unfoldable pub sort : List Job → List Job
unfolding insert
sort [] = []
sort (a ∷ jobs) = insert a (sort jobs)

-- Every job stands before those behind it.
abbrev pub IsOrdered : List Job → Type 0
IsOrdered [] = Unit
IsOrdered (a ∷ jobs) = All (λ b. comes_before a b ≡ true) jobs × IsOrdered jobs

-- The older job comes first; of two jobs of one time, the one with the smaller id.
abbrev pub IsBefore : Job → Job → Type 0
IsBefore a b = (a.created_at < b.created_at) ⊎ ((a.created_at ≡ b.created_at) × (a.id ≤ b.id))

abbrev pub IsSorted : List Job → Type 0
IsSorted [] = Unit
IsSorted (a ∷ jobs) = All (IsBefore a) jobs × IsSorted jobs

comes_before-IsBefore : (a b : Job) → comes_before a b ≡ true → IsBefore a b
comes_before-IsBefore a b h = elim (Bool-cases (ltb a.created_at b.created_at)) [
  | inl older ↦ inl (ground (arith, older))
  | inr other ↦ inr (ground (arith, other, h), ground (arith, other, h))
]

all-IsBefore :
    (a : Job) (jobs : List Job) → All (λ b. comes_before a b ≡ true) jobs → All (IsBefore a) jobs
all-IsBefore a [] h = tt
all-IsBefore a (b ∷ bs) h = (comes_before-IsBefore a b h.0, all-IsBefore a bs h.1)

pub ordered-IsSorted : (jobs : List Job) → IsOrdered jobs → IsSorted jobs
ordered-IsSorted [] o = tt
ordered-IsSorted (a ∷ jobs) o = (all-IsBefore a jobs o.0, ordered-IsSorted jobs o.1)

insert-perm : (a : Job) (jobs : List Job) → Perm (insert a jobs) (a ∷ jobs)
unfolding insert
insert-perm a [] = Perm.refl _
insert-perm a (b ∷ bs) = elim (Bool-cases (comes_before a b)) [
  | inl before ↦ rw before (Perm.refl _)
  | inr after ↦ rw after (Perm.trans (Perm.cons b (insert-perm a bs)) (Perm.swap a b bs))
]

pub sort-perm : (jobs : List Job) → Perm (sort jobs) jobs
unfolding sort
sort-perm [] = Perm.refl _
sort-perm (a ∷ jobs) = Perm.trans (insert-perm a (sort jobs)) (Perm.cons a (sort-perm jobs))

before-All :
    (a b : Job) (jobs : List Job)
    → comes_before a b ≡ true
    → All (λ c. comes_before b c ≡ true) jobs
    → All (λ c. comes_before a c ≡ true) jobs
before-All a b [] h d = tt
before-All a b (c ∷ cs) h d = (ground (arith, d.0), before-All a b cs h d.1)

insert-All :
    (x a : Job) (jobs : List Job)
    → comes_before x a ≡ true
    → All (λ c. comes_before x c ≡ true) jobs
    → All (λ c. comes_before x c ≡ true) (insert a jobs)
unfolding insert
insert-All x a [] h d = (h, tt)
insert-All x a (b ∷ bs) h d = elim (Bool-cases (comes_before a b)) [
  | inl before ↦ rw before (h, d)
  | inr after ↦ rw after (d.0, insert-All x a bs h d.1)
]

insert-IsOrdered : (a : Job) (jobs : List Job) → IsOrdered jobs → IsOrdered (insert a jobs)
unfolding insert
insert-IsOrdered a [] o = (tt, tt)
insert-IsOrdered a (b ∷ bs) o = elim (Bool-cases (comes_before a b)) [
  | inl before ↦ rw before ((before, before-All a b bs before o.0), o)
  | inr after ↦ rw after (insert-All b a bs (ground arith) o.0, insert-IsOrdered a bs o.1)
]

pub sort-IsOrdered : (jobs : List Job) → IsOrdered (sort jobs)
unfolding sort
sort-IsOrdered [] = tt
sort-IsOrdered (a ∷ jobs) = insert-IsOrdered a (sort jobs) (sort-IsOrdered jobs)
