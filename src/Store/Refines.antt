-- ===== src/Store/Refines.antt =====
-- `atomic_json` of src/persist.rs does what `put_file` says of a write.
use zebra_tamer.Prelude.{
  ◌≡◌, ◌≢◌, refl, sym, ap, ◌∙◌, ◌⊎◌, inl, inr, Bool, true, false, Option, none, some, ◌++◌,
}
use zebra_tamer.Prelude.Inversion.{some-injective}
use zebra_tamer.Prelude.Text.{Bytes}
use zebra_tamer.Prelude.Result.{Result}
use zebra_tamer.Store.Files.{Outcome, fine, refused, late, put_file, reply}
use zebra_tamer.Store.Atomic.{
  Folder, Extent, all_of, none_of, some_of, Step, went, stops, Steps, Ending, succeeded, failed,
  died, answer_of, ending, run, unseen, opened, appended, renamed, removed, newline, replace,
  clean_up, atomic_json, view,
}

run-either :
    (P : Ending × Folder → Type 0) (s : Step) (effect : Extent → Folder → Folder)
    (next : Folder → Ending × Folder) (f : Folder)
    → ((x : Extent) (alive : Bool) → P (ending alive, effect x f))
    → P (next (effect all_of f))
    → P (run s effect next f)
run-either P went effect next f stopped on = on
run-either P (stops x alive) effect next f stopped on = stopped x alive

stopped-not_ok : (alive : Bool) → ending alive ≢ succeeded
stopped-not_ok true h = cc
stopped-not_ok false h = cc

-- The file as it was and no success, or the new content.
abbrev IsEither : Option Bytes → Bytes → Ending × Folder → Type 0
IsEither old new (e, f) =
    ((f.target ≡ old) × (e ≢ succeeded)) ⊎ ((f.target ≡ some new) × (f.temporary ≡ none))

opened-target : (x : Extent) (f : Folder) → (opened x f).target ≡ f.target
opened-target all_of f = refl
opened-target none_of f = refl
opened-target (some_of n) f = refl

appended-target : (text : Bytes) (x : Extent) (f : Folder) → (appended text x f).target ≡ f.target
appended-target text all_of f = refl
appended-target text none_of f = refl
appended-target text (some_of n) f = refl

renamed-IsEither :
    (new : Bytes) (x : Extent) (alive : Bool) (f : Folder)
    → f.temporary ≡ some new
    → IsEither f.target new (ending alive, renamed x f)
renamed-IsEither new all_of alive f h = inr (h, refl)
renamed-IsEither new none_of alive f h = inl (refl, stopped-not_ok alive)
renamed-IsEither new (some_of n) alive f h = inl (refl, stopped-not_ok alive)

replace-IsEither :
    (s : Steps) (json : Bytes) (f : Folder) → IsEither f.target (json ++ newline) (replace s json f)
unfolding replace
replace-IsEither s json f =
    let P : Ending × Folder → Type 0 = IsEither f.target (json ++ newline) in
    let f1 = opened all_of f in
    let f2 = appended json all_of f1 in
    let f3 = appended newline all_of f2 in
    run-either P s.open_new opened _ f (λ x alive. inl (opened-target x f, stopped-not_ok alive))
      (run-either P s.write_json (appended json) _ f1
        (λ x alive. inl (appended-target json x f1, stopped-not_ok alive))
        (run-either P s.write_newline (appended newline) _ f2
          (λ x alive. inl (appended-target newline x f2, stopped-not_ok alive))
          (run-either P s.sync_file unseen _ f3 (λ x alive. inl (refl, stopped-not_ok alive))
            (run-either P s.rename_file renamed _ f3
              (λ x alive. renamed-IsEither (json ++ newline) x alive f3 refl)
              (run-either P s.sync_folder unseen _ (renamed all_of f3) (λ x alive. inr (refl, refl))
                (inr (refl, refl)))))))

removed-temporary : (x : Extent) (f : Folder) → (removed x f).target ≡ f.target
removed-temporary all_of f = refl
removed-temporary none_of f = refl
removed-temporary (some_of n) f = refl

removed-gone : (x : Extent) (f : Folder) → f.temporary ≡ none → (removed x f).temporary ≡ none
removed-gone all_of f h = refl
removed-gone none_of f h = h
removed-gone (some_of n) f h = h

-- The clean-up leaves the file alone and its success is the closure's.
clean_up-IsEither :
    (s : Step) (old : Option Bytes) (new : Bytes) (out : Ending × Folder)
    → IsEither old new out
    → IsEither old new (clean_up s out)
clean_up-IsEither s old new (succeeded, f) h = h
clean_up-IsEither s old new (died, f) h = h
clean_up-IsEither went old new (failed, f) (inl (same, bad)) = inl (same, bad)
clean_up-IsEither went old new (failed, f) (inr (put, gone)) = inr (put, refl)
clean_up-IsEither (stops x true) old new (failed, f) (inl (same, bad)) =
    inl (removed-temporary x f ∙ same, bad)
clean_up-IsEither (stops x true) old new (failed, f) (inr (put, gone)) =
    inr (removed-temporary x f ∙ put, removed-gone x f gone)
clean_up-IsEither (stops x false) old new (failed, f) (inl (same, bad)) =
    inl (removed-temporary x f ∙ same, stopped-not_ok false)
clean_up-IsEither (stops x false) old new (failed, f) (inr (put, gone)) =
    inr (removed-temporary x f ∙ put, removed-gone x f gone)

-- What is left of the file, for an outcome of `put_file` with the same reply.
abbrev pub IsPut : {A : Type 0} → (Bytes → Option A) → A → Option Bytes → Ending × Folder → Type 0
IsPut decode a old (e, f) =
    (o : Outcome) × (view decode f.target ≡ put_file o a (view decode old))
    × ((r : Result (Unit {0})) → answer_of e ≡ some r → r ≡ reply o)
    × (e ≡ succeeded → f.temporary ≡ none)

IsEither-IsPut :
    {A : Type 0} (decode : Bytes → Option A) (a : A) (old : Option Bytes) (new : Bytes) (e : Ending)
    (f : Folder)
    → decode new ≡ some a
    → IsEither old new (e, f)
    → IsPut decode a old (e, f)
IsEither-IsPut decode a old new succeeded f reads (inl (same, bad)) = absurd (bad refl)
IsEither-IsPut decode a old new failed f reads (inl (same, bad)) =
    (refused, ap (view decode) same, λ r h. sym (some-injective h), λ h. absurd (bad h))
IsEither-IsPut decode a old new died f reads (inl (same, bad)) =
    (refused, ap (view decode) same, λ r h. cc, λ h. absurd (bad h))
IsEither-IsPut decode a old new succeeded f reads (inr (put, gone)) =
    (fine, ap (view decode) put ∙ rw (reads, view) refl, λ r h. sym (some-injective h), λ h. gone)
IsEither-IsPut decode a old new failed f reads (inr (put, gone)) =
    (late, ap (view decode) put ∙ rw (reads, view) refl, λ r h. sym (some-injective h), λ h. gone)
IsEither-IsPut decode a old new died f reads (inr (put, gone)) =
    (late, ap (view decode) put ∙ rw (reads, view) refl, λ r h. cc, λ h. gone)

-- When the reader of a type reads what its writer writes: however the calls of the operating system
-- go, even if the process dies in one of them, the file afterwards is what `put_file` makes of it for
-- some outcome, and the caller, if it is still there, gets the reply of that outcome; so the file has
-- its old content or the new value, never a part of it. After a success no temporary file is left.
pub atomic_json-refines :
    {A : Type 0} (encode : A → Bytes) (decode : Bytes → Option A) (s : Steps) (a : A) (f : Folder)
    → decode (encode a ++ newline) ≡ some a
    → IsPut decode a f.target (atomic_json s (encode a) f)
unfolding atomic_json
atomic_json-refines encode decode s a f reads =
    let out = atomic_json s (encode a) f in
    IsEither-IsPut decode a f.target (encode a ++ newline) out.0 out.1 reads (
      run-either (IsEither f.target (encode a ++ newline)) s.create_folder unseen
        (λ g. clean_up s.remove_file (replace s (encode a) g)) f
        (λ x alive. inl (refl, stopped-not_ok alive))
        (clean_up-IsEither s.remove_file f.target (encode a ++ newline) (replace s (encode a) f)
          (replace-IsEither s (encode a) f)))
