-- ===== src/Media/Conservation.antt =====
-- Labels are conserved by every movement of the accounting: what src/worker.rs, src/main.rs and
-- `adjust` of src/media.rs take off or put on a roll.
use zebra_tamer.Prelude.{ℕ, ◌+◌, ◌≤◌, ◌<◌, ◌≡◌, refl, ◌∙◌, List, [], ◌∷◌, arith}
use zebra_tamer.Prelude.Int.{ℤ, pos, negsuc, pos_part, neg_part}
use zebra_tamer.Prelude.Words.{u64_max}
use zebra_tamer.Model.Job.{DateTime}
use zebra_tamer.Model.Media.{MediaDefinition, MediaState}
use zebra_tamer.Media.Accounting.{estimated_loss, consumed_by_job, adjusted}
use zebra_tamer.Media.Operations.{fresh_state}

pub data Movement : Type 0 where
  job : ℕ → Movement
  loss : ℕ → Movement
  adjustment : ℤ → Movement

unfoldable pub move : DateTime → Movement → MediaState → MediaState
unfolding consumed_by_job estimated_loss adjusted
move now (job count) m = consumed_by_job now count m
move now (loss count) m = estimated_loss now count m
move now (adjustment delta) m = adjusted now delta m

unfoldable pub move_all : DateTime → List Movement → MediaState → MediaState
unfolding move
move_all now [] m = m
move_all now (v ∷ vs) m = move_all now vs (move now v m)

abbrev pub debit : Movement → ℕ
debit (job count) = count
debit (loss count) = count
debit (adjustment delta) = neg_part delta

abbrev credit : Movement → ℕ
credit (adjustment delta) = pos_part delta
credit _ = 0

abbrev pub debits : List Movement → ℕ
debits [] = 0
debits (v ∷ vs) = debit v + debits vs

abbrev pub credits : List Movement → ℕ
credits [] = 0
credits (v ∷ vs) = credit v + credits vs

-- The account of a roll after credits `c` and debits `d`.
pub record IsBalanced (c d : ℕ) (m : MediaState) : Type 0 where
  pub conserved :
      m.remaining_labels + m.consumed_labels_total
      ≡ m.initial_labels + c + m.accounting_deficit_labels
  pub consumed : m.consumed_labels_total ≡ d
  pub deficit : m.accounting_deficit_labels ≤ d

pub fresh_state-IsBalanced :
    (now : DateTime) (definition : MediaDefinition) → IsBalanced 0 0 (fresh_state now definition)
unfolding fresh_state
fresh_state-IsBalanced now definition = omega arith

initial-move :
    (now : DateTime) (v : Movement) (m : MediaState)
    → (move now v m).initial_labels ≡ m.initial_labels
unfolding move
initial-move now (job count) m = refl
initial-move now (loss count) m = refl
initial-move now (adjustment (pos n)) m = refl
initial-move now (adjustment (negsuc n)) m = refl

initial-move_all :
    (now : DateTime) (vs : List Movement) (m : MediaState)
    → (move_all now vs m).initial_labels ≡ m.initial_labels
unfolding move_all
initial-move_all now [] m = refl
initial-move_all now (v ∷ vs) m = initial-move_all now vs (move now v m) ∙ initial-move now v m

pub move-IsBalanced :
    (now : DateTime) (v : Movement) (c d : ℕ) (m : MediaState)
    → m.initial_labels + c + credit v ≤ u64_max
    → d + debit v ≤ u64_max
    → IsBalanced c d m
    → IsBalanced (c + credit v) (d + debit v) (move now v m)
unfolding move
move-IsBalanced now (job count) c d m hc hd b = ground arith
move-IsBalanced now (loss count) c d m hc hd b = ground arith
move-IsBalanced now (adjustment (pos n)) c d m hc hd b = ground arith
move-IsBalanced now (adjustment (negsuc n)) c d m hc hd b = ground arith

pub move_all-IsBalanced :
    (now : DateTime) (vs : List Movement) (c d : ℕ) (m : MediaState)
    → m.initial_labels + c + credits vs ≤ u64_max
    → d + debits vs ≤ u64_max
    → IsBalanced c d m
    → IsBalanced (c + credits vs) (d + debits vs) (move_all now vs m)
unfolding move_all
move_all-IsBalanced now [] c d m hc hd b = omega arith
move_all-IsBalanced now (v ∷ vs) c d m hc hd b = omega (
  arith,
  initial-move now v m,
  move_all-IsBalanced now vs (c + credit v) (d + debit v) (move now v m)
      (omega (arith, initial-move now v m)) (omega arith)
      (move-IsBalanced now v c d m (omega arith) (omega arith) b),
)

-- From a freshly loaded roll, whatever jobs, losses and adjustments follow, if the labels on the
-- roll plus all credits, and all debits, fit 64 bits: the labels left and the labels consumed make
-- up the labels loaded, the credits and the deficit, and the consumption is the sum of the debits.
pub roll_conserved :
    (at now : DateTime) (definition : MediaDefinition) (vs : List Movement)
    → definition.labels_available_at_load + credits vs ≤ u64_max
    → debits vs ≤ u64_max
    → let m = move_all now vs (fresh_state at definition) in
      (m.remaining_labels + m.consumed_labels_total
        ≡ definition.labels_available_at_load + credits vs + m.accounting_deficit_labels)
      × (m.consumed_labels_total ≡ debits vs)
      × (m.accounting_deficit_labels ≤ debits vs)
roll_conserved at now definition vs hc hd = omega (
  arith,
  initial-fresh,
  initial-move_all now vs (fresh_state at definition),
  move_all-IsBalanced now vs 0 0 (fresh_state at definition) (omega (arith, initial-fresh))
      (omega arith) (fresh_state-IsBalanced at definition),
)
  where
    initial-fresh : (fresh_state at definition).initial_labels ≡ definition.labels_available_at_load
    initial-fresh = unfold fresh_state in refl

-- The deficit grows only when a debit is larger than what is left, and then the roll is empty.
pub deficit_only_when_empty :
    (now : DateTime) (v : Movement) (m : MediaState)
    → m.accounting_deficit_labels < (move now v m).accounting_deficit_labels
    → (m.remaining_labels < debit v) × ((move now v m).remaining_labels ≡ 0)
unfolding move
deficit_only_when_empty now (job count) m h = ground arith
deficit_only_when_empty now (loss count) m h = ground arith
deficit_only_when_empty now (adjustment (pos n)) m h = ground arith
deficit_only_when_empty now (adjustment (negsuc n)) m h = ground arith
