-- ===== src/Worker/Retry.antt =====
-- No retry after a byte: what the delivery loop of src/worker.rs sends, and what it reports of it.
use mathlib.Core.List.{append_assoc}
use zebra_tamer.Prelude.{
  ℕ, zero, suc, ◌+◌, ◌≤◌, ◌≡◌, refl, ap, sym, ◌∙◌, ◌⊎◌, inl, inr, String, false, Option, none, some,
  List, [], ◌∷◌, ◌++◌, arith, length, length-append, Bool-cases, Option-cases, ltb, if◌then◌else◌,
}
use zebra_tamer.Model.Job.{Uuid, Job}
use zebra_tamer.Worker.Machine.{
  Link, Written, delivered, failure, ensure_transport, write_file, close,
}
use zebra_tamer.Worker.Delivery.{try_write, is_final, attempts, deliver, send}

abbrev pub bytes_of : Written → ℕ
bytes_of (delivered n) = n
bytes_of (failure n e) = n

-- The bytes that the printer took in some writes.
abbrev pub total : List (Uuid × Written) → ℕ
total [] = 0
total ((path, w) ∷ ws) = bytes_of w + total ws

-- How many of the writes reached the printer: they succeeded or left bytes there.
abbrev pub reached : List (Uuid × Written) → ℕ
reached [] = 0
reached ((path, delivered n) ∷ ws) = suc (reached ws)
reached ((path, failure n e) ∷ ws) = let rest = reached ws in if ltb 0 n then suc rest else rest

-- An attempt that reaches the payload makes one write, and its answer is that write's.
abbrev Tried : Uuid → List (Uuid × Written) → Written × Link → Type 0
Tried path before r =
    ((r.1.writes ≡ before) × (e : String) × (r.0 ≡ failure 0 e))
    ⊎ (r.1.writes ≡ (path, r.0) ∷ before)

writes-ensure_transport : (l : Link) → (ensure_transport l).1.writes ≡ l.writes
unfolding ensure_transport
writes-ensure_transport l = ground arith

send-Tried :
    (path : Uuid) (r : Option String × Link) (before : List (Uuid × Written))
    → r.1.writes ≡ before
    → Tried path before (send path r)
unfolding send write_file
send-Tried path (none, l) before h = inr (ap (λ ws. (path, l.answers path l.write_calls) ∷ ws) h)
send-Tried path (some e, l) before h = inl (h, e, refl)

try_write-Tried : (path : Uuid) (l : Link) → Tried path l.writes (try_write path l)
unfolding try_write
try_write-Tried path l = send-Tried path (ensure_transport l) l.writes (writes-ensure_transport l)

-- The writes that the attempts added to the link, the answer and the count of attempts.
pub record IsCareful (n : ℕ) (path : Uuid) (l : Link) (r : Written × Link × ℕ) : Type 0 where
  pub added : List (Uuid × Written)
  pub extends : r.1.writes ≡ added ++ l.writes
  pub few : length added ≤ n
  pub counted : r.2 ≤ n
  pub accounted : total added ≡ bytes_of r.0
  pub once : reached added ≤ 1

total-append : (xs ys : List (Uuid × Written)) → total (xs ++ ys) ≡ total xs + total ys
total-append [] ys = omega arith
total-append ((path, w) ∷ xs) ys = omega (arith, total-append xs ys)

reached-append : (xs ys : List (Uuid × Written)) → reached (xs ++ ys) ≡ reached xs + reached ys
reached-append [] ys = omega arith
reached-append ((path, delivered n) ∷ xs) ys = omega (arith, reached-append xs ys)
reached-append ((path, failure n e) ∷ xs) ys = ground (arith, reached-append xs ys)

-- Closing the transport changes no write.
reopened :
    (n : ℕ) (path : Uuid) (l : Link) (r : Written × Link × ℕ)
    → IsCareful n path (close l) r
    → IsCareful n path l r
reopened n path l r c = record {
  added = c.added;
  extends = c.extends;
  few = c.few;
  counted = c.counted;
  accounted = c.accounted;
  once = c.once;
}

-- A try that ends the loop.
final-IsCareful :
    (n : ℕ) (path : Uuid) (l : Link) (r : Written × Link)
    → Tried path l.writes r
    → IsCareful (suc n) path l (r.0, r.1, 1)
final-IsCareful n path l r (inl (same, e, silent)) = record {
  added = [];
  extends = same;
  few = omega arith;
  counted = omega arith;
  accounted = ground arith;
  once = omega arith;
}
final-IsCareful n path l (delivered k, l') (inr more) = record {
  added = (path, delivered k) ∷ [];
  extends = more;
  few = omega arith;
  counted = omega arith;
  accounted = omega arith;
  once = omega arith;
}
final-IsCareful n path l (failure k e, l') (inr more) = record {
  added = (path, failure k e) ∷ [];
  extends = more;
  few = omega arith;
  counted = omega arith;
  accounted = omega arith;
  once = ground arith;
}

-- A try that does not end the loop sent nothing.
next-IsCareful :
    (n : ℕ) (path : Uuid) (l : Link) (r : Written × Link) (later : Written × Link × ℕ)
    → Tried path l.writes r
    → is_final n r.0 ≡ false
    → IsCareful n path r.1 later
    → IsCareful (suc n) path l (later.0, later.1, suc later.2)
unfolding is_final
next-IsCareful n path l r later (inl (same, e, silent)) go c = record {
  added = c.added;
  extends = c.extends ∙ ap (λ ws. c.added ++ ws) same;
  few = omega (arith, c.few);
  counted = omega (arith, c.counted);
  accounted = c.accounted;
  once = c.once;
}
next-IsCareful n path l (delivered k, l') later (inr more) go c = cc
next-IsCareful n path l (failure k e, l') later (inr more) go c = record {
  added = c.added ++ ((path, failure k e) ∷ []);
  extends =
      c.extends
      ∙ (ap (λ ws. c.added ++ ws) more
          ∙ sym (append_assoc c.added ((path, failure k e) ∷ []) l.writes));
  few = omega (arith, c.few, length-append c.added ((path, failure k e) ∷ []));
  counted = omega (arith, c.counted);
  accounted = ground (arith, c.accounted, total-append c.added ((path, failure k e) ∷ []));
  once = ground (arith, c.once, reached-append c.added ((path, failure k e) ∷ []));
}

attempts-IsCareful : (n : ℕ) (path : Uuid) (l : Link) → IsCareful n path l (attempts n path l)
unfolding attempts
attempts-IsCareful zero path l = record {
  added = [];
  extends = refl;
  few = omega arith;
  counted = omega arith;
  accounted = refl;
  once = omega arith;
}
attempts-IsCareful (suc n) path l = elim (Bool-cases (is_final n (try_write path l).0)) [
  | inl ends ↦ rw ends (final-IsCareful n path l (try_write path l) (try_write-Tried path l))
  | inr goes ↦
      let l' = (try_write path l).1 in
      rw goes (
        next-IsCareful n path l (try_write path l) (attempts n path (close l'))
          (try_write-Tried path l) goes
          (reopened n path l' _ (attempts-IsCareful n path (close l'))))
]

-- Whatever opens and writes do, the delivery of a job makes at most three writes, at most one of
-- them reaches the printer, and the bytes reported are all the bytes that the printer took.
pub deliver-careful :
    (job : Job) (l : Link)
    → let (answer, l', job') = deliver job l in
      (added : List (Uuid × Written)) × (l'.writes ≡ added ++ l.writes)
      × (length added ≤ 3)
      × (total added ≡ bytes_of answer)
      × (reached added ≤ 1)
unfolding deliver
deliver-careful job l = elim (Option-cases job.payload_path) [
  | inl e ↦ rw e ([], refl, omega arith, refl, omega arith)
  | inr (path, e) ↦
      rw e (let c = attempts-IsCareful 3 path l in (c.added, c.extends, c.few, c.accounted, c.once))
]
