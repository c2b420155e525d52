-- ===== src/Ssp/Keeps.antt =====
-- Calls of ssp/src/ssp.c that return with the table and its counters as they were.
use Prim.Native.String.{String}
use kernel_modules.Common.{
  codes, ◌≡◌, refl, sym, ap, ◌∙◌, Bool, true, false, ◌||◌, not, if◌then◌else◌, List, [], ◌∷◌, ◌++◌,
  get_elem?, ℤ, pos, negsuc, is_negative, below, ok, Outcome-cases, Option-cases, same_end,
  stop_not_ok, bind_ok, bind_stop, Bool-cases, inl, inr, ◌>>=◌,
}
use kernel_modules.Ssp.{
  System, Line, State, print, call, process, or_quit, err, out_of_bounds, SspCall, error_check,
  exit_errno,
}
use kernel_modules.Ssp.Status.{ssp_send_signal}
use kernel_modules.Ssp.Table.{with, env}

-- A call that returns with the table and its counters as they were.
abbrev pub Keeps : {W A : Type 0} → SspCall W A → Type 0
Keeps {W = W} {A = A} c =
    (s t : State W) (a : A) → c s ≡ ok (a, t) → (e : W × List Line) × (with s s.processes e ≡ t)

module _ {W : Type 0} where
  Keeps-bind :
      {A B : Type 0} (c : SspCall W A) (f : A → SspCall W B)
      → Keeps c
      → ((a : A) → Keeps (f a))
      → Keeps (c >>= f)
  Keeps-bind c f first later s t b runs = elim (Outcome-cases (c s)) [
    | inl (end, h) ↦ absurd (cc (stop_not_ok (bind_stop c f s end h) runs))
    | inr ((a, u), h) ↦
        let (d, same) = first s u a h in
        let (e, after) = later a u t b (sym (bind_ok c f s u a h) ∙ runs) in
        (e, ap (λ (v : State W). with v v.processes e) same ∙ after)
  ]

  Keeps-read : {A : Type 0} (f : State W → A) → Keeps (λ s. ok (f s, s))
  Keeps-read f s t a runs = (env s, same_end refl runs)

  Keeps-print : (line : Line) → Keeps {W = W} (print line)
  Keeps-print line s t a runs = ((s.world, s.output ++ (line ∷ [])), same_end refl runs)

  Keeps-call : {A : Type 0} (f : W → A × W) → Keeps (call f)
  Keeps-call f s t a runs = (((f s.world).1, s.output), same_end refl runs)

  Keeps-process : (f : State W → ℤ) → Keeps (λ s. process (f s) s)
  unfolding process
  Keeps-process f s t p runs = at_id (f s) runs
    where
      at_id : (i : ℤ) → process i s ≡ ok (p, t) → (e : W × List Line) × (with s s.processes e ≡ t)
      at_id (negsuc n) runs = absurd (cc (stop_not_ok refl runs))
      at_id (pos id) runs = elim (Option-cases (get_elem? s.processes id)) [
        | inl out ↦ absurd (cc (stop_not_ok (ap (λ o. or_quit out_of_bounds o s) out) runs))
        | inr (q, found) ↦ (env s, same_end (ap (λ o. or_quit out_of_bounds o s) found) runs)
      ]

  Keeps-if :
      {A : Type 0} (b : Bool) (c d : SspCall W A) → Keeps c → Keeps d → Keeps (if b then c else d)
  Keeps-if true c d k l = k
  Keeps-if false c d k l = l

module _ {W : Type 0} (os : System W) where
  Keeps-check : (value : ℤ) (message : String) → Keeps (error_check os value message)
  unfolding error_check exit_errno
  Keeps-check value message s t a runs = elim (Bool-cases (is_negative value)) [
    | inl h ↦ absurd (cc (stop_not_ok refl (rw h at runs)))
    | inr h ↦ (env s, same_end refl (rw h at runs))
  ]

  pub signal-Keeps : (id signum : ℤ) → Keeps (ssp_send_signal os id signum)
  unfolding ssp_send_signal
  signal-Keeps id signum =
      Keeps-bind _ _ (Keeps-read (λ s. is_negative s.ssp_id || not (below id s.processes_size)))
        (λ invalid. Keeps-if invalid _ _ (Keeps-print (err (codes "Invalid ssp_id"))) (
          Keeps-bind _ _ (Keeps-process (λ s. s.ssp_id)) (λ p.
            Keeps-if (is_negative p.pid) _ _ (Keeps-read (λ s. tt)) (
              Keeps-bind _ _ (Keeps-call (os.kill p.pid signum))
                (λ r. Keeps-check r "send_signal")))))
