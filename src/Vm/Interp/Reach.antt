-- ===== src/Vm/Interp/Reach.antt =====
-- The runs of the machine as a step relation, and `vm_run` beside it.
use animula.Prelude.{ℕ, zero, suc, ◌≡◌, ◌↔◌, refl, sym, ap, ◌∙◌, true, false, Bool-cases, inl, inr}
use mathlib.Core.Path.{subst}
use animula.Run.{Run, ok, panic, fault}
use animula.Vm.State.{Vm, and_then}
use animula.Vm.Interp.{Services, round, is_running, vm_run}

-- From the machine of the index, rounds of running machines lead to `last`.
pub data Reaches (s : Services) (last : Vm) : Vm → Type 0 where
  here : Reaches s last last
  step :
      {vm next : Vm}
      → is_running s vm ≡ true
      → round s vm ≡ ok (tt, next)
      → Reaches s last next
      → Reaches s last vm

and_then-ok :
    {A B : Type 0} (r : Run (A × Vm)) (f : A → Vm → Run (B × Vm)) (b : B × Vm)
    → and_then r f ≡ ok b
    → (a : A) × (vm : Vm) × (r ≡ ok (a, vm)) × (f a vm ≡ ok b)
and_then-ok (ok (a, vm)) f b h = (a, vm, refl, h)
and_then-ok panic f b h = absurd cc
and_then-ok fault f b h = absurd cc

ok-inj : {vm last : Vm} → ◌≡◌ {A = Run (Unit {0} × Vm)} (ok (tt, vm)) (ok (tt, last)) → vm ≡ last
ok-inj {vm} h = ap (λ r. elim r [ ok (_, v) ↦ v | panic ↦ vm | fault ↦ vm ]) h

module _ (s : Services) where
  vm_run_stopped : (fuel : ℕ) (vm : Vm) → is_running s vm ≡ false → vm_run s fuel vm ≡ ok (tt, vm)
  unfolding vm_run
  vm_run_stopped zero vm e = rw e refl
  vm_run_stopped (suc fuel) vm e = rw e refl

  vm_run_empty : (vm : Vm) → is_running s vm ≡ true → vm_run s zero vm ≡ fault
  unfolding vm_run
  vm_run_empty vm e = rw e refl

  vm_run_round :
      (fuel : ℕ) (vm : Vm)
      → is_running s vm ≡ true
      → vm_run s (suc fuel) vm ≡ and_then (round s vm) (λ _ next. vm_run s fuel next)
  unfolding vm_run
  vm_run_round fuel vm e = rw e refl

  Reaches-stopped :
      (fuel : ℕ) (vm last : Vm)
      → is_running s vm ≡ false
      → vm_run s fuel vm ≡ ok (tt, last)
      → Reaches s last vm × (is_running s last ≡ false)
  Reaches-stopped fuel vm last e h =
      let same : vm ≡ last = ok-inj (sym (vm_run_stopped fuel vm e) ∙ h) in
      (subst (λ v. Reaches s last v) (sym same) here, ap (is_running s) (sym same) ∙ e)

  vm_run→Reaches :
      (fuel : ℕ) (vm last : Vm)
      → vm_run s fuel vm ≡ ok (tt, last)
      → Reaches s last vm × (is_running s last ≡ false)
  vm_run→Reaches zero vm last h = elim (Bool-cases (is_running s vm)) [
    | inl e ↦ let none_left = sym (vm_run_empty vm e) ∙ h in absurd cc
    | inr e ↦ Reaches-stopped zero vm last e h
  ]
  vm_run→Reaches (suc fuel) vm last h = elim (Bool-cases (is_running s vm)) [
    | inl e ↦
        let (u, next, once, rest) =
          and_then-ok (round s vm) (λ _ next. vm_run s fuel next) (tt, last)
            (sym (vm_run_round fuel vm e) ∙ h) in
        let (reach, stopped) = vm_run→Reaches fuel next last rest in (step e once reach, stopped)
    | inr e ↦ Reaches-stopped (suc fuel) vm last e h
  ]

  Reaches→vm_run :
      (last : Vm) {vm : Vm}
      → is_running s last ≡ false
      → Reaches s last vm
      → (fuel : ℕ) × (vm_run s fuel vm ≡ ok (tt, last))
  Reaches→vm_run last stopped here = (0, vm_run_stopped 0 last stopped)
  Reaches→vm_run last stopped (step {vm} running once rest) =
      let (fuel, run) = Reaches→vm_run last stopped rest in
      (suc fuel, vm_run_round fuel vm running ∙ rw once run)

-- `vm_run` refines the step relation: with some fuel it returns the machine `last` just where rounds
-- of running machines lead to it and it does not run.
pub vm_run-Reaches :
    (s : Services) (vm last : Vm)
    → ((fuel : ℕ) × (vm_run s fuel vm ≡ ok (tt, last)))
      ↔ (Reaches s last vm × (is_running s last ≡ false))
vm_run-Reaches s vm last = (
  λ (fuel, h). vm_run→Reaches s fuel vm last h,
  λ (reach, stopped). Reaches→vm_run s last stopped reach,
)
