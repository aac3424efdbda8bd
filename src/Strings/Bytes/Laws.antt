-- ===== src/Strings/Bytes/Laws.antt =====
-- The functions of string.h on a text that a zero ends.
use animula.Prelude.{
  ℕ, zero, suc, ◌≤◌, ◌≡◌, ◌≢◌, ◌↔◌, refl, sym, ap₂, set, Bool, true, false, ◌==◌, ◌&&◌, List, [],
  ◌∷◌, ◌++◌, length, take, drop, replicate, Bool-cases, inl, inr, arith,
}
use animula.Run.{ok}
use animula.Store.{not_null}
use animula.Strings.Bytes.{strnlen, strncmp_zero, strncpy}

-- The bytes of a text: none of them is zero.
abbrev pub NonZero : List ℕ → Type 0
NonZero [] = Unit
NonZero (c ∷ cs) = (c ≢ 0) × NonZero cs

abbrev pub equal : List ℕ → List ℕ → Bool
equal [] [] = true
equal [] (d ∷ ds) = false
equal (c ∷ cs) [] = false
equal (c ∷ cs) (d ∷ ds) = (c == d) && equal cs ds

equal→eq : (cs ds : List ℕ) → equal cs ds ≡ true → cs ≡ ds
equal→eq [] [] h = refl
equal→eq [] (d ∷ ds) h = absurd cc
equal→eq (c ∷ cs) [] h = absurd cc
equal→eq (c ∷ cs) (d ∷ ds) h =
    let e : c ≡ d = ground (arith, h) in ap₂ ◌∷◌ e (equal→eq cs ds (ground (arith, h)))

equal_refl : (cs : List ℕ) → equal cs cs ≡ true
equal_refl [] = refl
equal_refl (c ∷ cs) = ground (arith, equal_refl cs)

pub equal-eq : (cs ds : List ℕ) → (equal cs ds ≡ true) ↔ (cs ≡ ds)
equal-eq cs ds = (equal→eq cs ds, λ e. rw (sym e) (equal_refl cs))

pub NonZero-take : (n : ℕ) (cs : List ℕ) → NonZero cs → NonZero (take n cs)
NonZero-take zero cs ne = tt
NonZero-take (suc n) [] ne = tt
NonZero-take (suc n) (c ∷ cs) (ne, nes) = (ne, NonZero-take n cs nes)

pub NonZero-drop : (n : ℕ) (cs : List ℕ) → NonZero cs → NonZero (drop n cs)
NonZero-drop zero cs ne = ne
NonZero-drop (suc n) [] ne = tt
NonZero-drop (suc n) (c ∷ cs) (ne, nes) = NonZero-drop n cs nes

pub NonZero-append : (cs ds : List ℕ) → NonZero cs → NonZero ds → NonZero (cs ++ ds)
NonZero-append [] ds nc nd = nd
NonZero-append (c ∷ cs) ds (ne, nes) nd = (ne, NonZero-append cs ds nes nd)

pub NonZero-replicate : (n c : ℕ) → c ≢ 0 → NonZero (replicate n c)
NonZero-replicate zero c ne = tt
NonZero-replicate (suc n) c ne = (ne, NonZero-replicate n c ne)

pub NonZero-set : (cs : List ℕ) (i c : ℕ) → NonZero cs → c ≢ 0 → NonZero (set cs i c)
NonZero-set [] i c nc ne = tt
NonZero-set (d ∷ cs) zero c (nd, nds) ne = (ne, nds)
NonZero-set (d ∷ cs) (suc i) c (nd, nds) ne = (nd, NonZero-set cs i c nds ne)

pub strnlen-length :
    (cs rest : List ℕ) (max : ℕ)
    → NonZero cs
    → length cs ≤ max
    → strnlen (cs ++ (0 ∷ rest)) max ≡ ok (length cs)
unfolding strnlen
strnlen-length [] rest zero ne h = refl
strnlen-length [] rest (suc max) ne h = refl
strnlen-length (c ∷ cs) rest zero ne h = absurd (omega (arith, h))
strnlen-length (c ∷ cs) rest (suc max) (ne, nes) h =
    rw (not_null c ne, strnlen-length cs rest max nes (omega arith)) refl

pub strncpy-take :
    (cs rest : List ℕ) (n : ℕ)
    → NonZero cs
    → n ≤ length cs
    → strncpy (cs ++ rest) n ≡ ok (take n cs)
unfolding strncpy
strncpy-take cs rest zero ne h = refl
strncpy-take [] rest (suc n) ne h = absurd (omega (arith, h))
strncpy-take (c ∷ cs) rest (suc n) (ne, nes) h =
    rw (not_null c ne, strncpy-take cs rest n nes (omega arith)) refl

pub strncmp_zero-equal :
    (cs ds rest rest' : List ℕ) (max : ℕ)
    → NonZero cs
    → NonZero ds
    → length cs ≤ max
    → length ds ≤ max
    → strncmp_zero (cs ++ (0 ∷ rest)) (ds ++ (0 ∷ rest')) max ≡ ok (equal cs ds)
unfolding strncmp_zero
strncmp_zero-equal [] [] rest rest' zero nc nd hc hd = refl
strncmp_zero-equal [] [] rest rest' (suc max) nc nd hc hd = refl
strncmp_zero-equal (c ∷ cs) ds rest rest' zero nc nd hc hd = absurd (omega (arith, hc))
strncmp_zero-equal [] (d ∷ ds) rest rest' zero nc nd hc hd = absurd (omega (arith, hd))
strncmp_zero-equal [] (d ∷ ds) rest rest' (suc max) nc (nd, nds) hc hd = ground (arith, nd)
strncmp_zero-equal (c ∷ cs) [] rest rest' (suc max) (nc, ncs) nd hc hd = rw (not_null c nc) refl
strncmp_zero-equal (c ∷ cs) (d ∷ ds) rest rest' (suc max) (nc, ncs) (nd, nds) hc hd =
    elim (Bool-cases (c == d)) [
      | inl e ↦
          rw
            (
              e,
              not_null c nc,
              strncmp_zero-equal cs ds rest rest' max ncs nds (omega arith) (omega arith),
            )
            refl
      | inr e ↦ rw e refl
    ]
