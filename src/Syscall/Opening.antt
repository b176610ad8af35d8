-- ===== src/Syscall/Opening.antt =====
-- The steps of a system call by which a file comes and goes: the opening and the closing.
use domains.Prelude.{
  ℕ, ◌≡◌, sym, ◌∙◌, ap, List, none, Bool, ◌==◌, arith, Bool-cases, inl, inr, Outcome, ok, err,
  panic,
}
use mathlib.Core.Path.{subst}
use domains.Prelude.Act.{Act, state_of, ◌>>=◌}
use domains.Prelude.Triple.{Triple, bind-Triple}
use domains.Syscall.Domains.{TaskDomain, VfsDomain}
use domains.Syscall.Links.{outcome_of}
use domains.Syscall.Balance.{View, Same, Opened, Promises, Before, During, Ends}
use domains.Syscall.Steps.{at_err, outcome-state}

module _ {S Seek Attr Event : Type 0} (v : View S) (vfs : VfsDomain S Seek Attr Event)
    (task_domain : TaskDomain S) (promises : Promises v vfs task_domain) where
  open v use {File, file_at, IsSound, HasRoom}

  -- What stands between an opening that has answered and its closing.
  abbrev Open : S → Outcome ℕ → S → Type 0
  Open s₀ (ok id) s = During v s₀ id s
  Open s₀ (err e) s = Same v s₀ s
  Open s₀ panic s = Same v s₀ s

  from_start : (s₀ s s' : S) (o : Outcome ℕ) → Same v s₀ s → Opened v s o s' → Open s₀ o s'
  from_start s₀ s s' (ok id) same (above, free, sound, others) =
      (above, sym (same id) ∙ free, sound, λ j away. others j away ∙ same j)
  from_start s₀ s s' (err e) same h = λ j. h j ∙ same j
  from_start s₀ s s' panic same h = λ j. h j ∙ same j

  pub opening :
      {B : Type 0} (strict : Bool) (s₀ : S) (root : ℕ) (path : List ℕ) (len mode flags : ℕ)
      {next : ℕ → Act S B}
      → ((id : ℕ) → Triple (During v s₀ id) (next id) (Ends v strict s₀))
      → Triple (Before v s₀) (vfs.vfs_open root path len mode flags >>= next) (Ends v strict s₀)
  opening {B} strict s₀ root path len mode flags second =
      bind-Triple {Mid = Open s₀}
        (record {
          holds = λ s (same, room).
              from_start s₀ s (state_of (vfs.vfs_open root path len mode flags) s)
                (vfs.vfs_open root path len mode flags s).0 same
                (promises.opens root path len mode flags s room);
        })
        second (λ e s h. at_err v B strict s₀ s e h) (λ s h. tt)

  -- The closing takes away what the opening brought.
  closed-Same : (s₀ s : S) (id : ℕ) → During v s₀ id s → Same v s₀ (state_of (vfs.vfs_close id) s)
  closed-Same s₀ s id (above, free, sound, others) =
      let after_it = promises.closes id s above sound in
      λ j. elim (Bool-cases (id == j)) [
        | inl same ↦
            let e : id ≡ j = ground arith in
            let free' : file_at s₀ j ≡ none = subst (λ (x : ℕ). file_at s₀ x ≡ none) e free in
            after_it j ∙ (rw (same) (sym free'))
        | inr away ↦ after_it j ∙ (rw (away) (others j away))
      ]

  pub closing :
      {B : Type 0} (strict : Bool) (s₀ : S) (id : ℕ) {next : Unit {0} → Act S B}
      → ((x : Unit {0}) → Triple (Same v s₀) (next x) (Ends v strict s₀))
      → Triple (During v s₀ id) (vfs.vfs_close id >>= next) (Ends v strict s₀)
  closing {B} strict s₀ id second =
      bind-Triple {Mid = λ o s. Same v s₀ s} (record { holds = λ s h. closed-Same s₀ s id h })
        second (λ e s h. at_err v B strict s₀ s e h) (λ s h. tt)

  pub closing_outcome :
      {B : Type 0} (strict : Bool) (s₀ : S) (id : ℕ) {next : Outcome (Unit {0}) → Act S B}
      → ((x : Outcome (Unit {0})) → Triple (Same v s₀) (next x) (Ends v strict s₀))
      → Triple (During v s₀ id) (outcome_of (vfs.vfs_close id) >>= next) (Ends v strict s₀)
  closing_outcome {B} strict s₀ id second =
      bind-Triple {Mid = λ o s. Same v s₀ s}
        (record {
          holds = λ s h j.
              ap (λ (t : S). file_at t j) (outcome-state v (vfs.vfs_close id) s)
              ∙ closed-Same s₀ s id h j;
        })
        second (λ e s h. at_err v B strict s₀ s e h) (λ s h. tt)
