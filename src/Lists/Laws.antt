-- ===== src/Lists/Laws.antt =====
-- list.c: lengths, references and updates along the chain of a list.
use animula.Prelude.{
  ℕ, zero, suc, ◌+◌, ◌%◌, ◌^◌, ◌<◌, ◌≡◌, refl, ap, true, false, Option, none, some, [], ◌∷◌, length,
  get_elem?, drop, ltb, Bool-cases, sym, inl, inr, ◌||◌, ◌∙◌, ◌==◌, if◌then◌else◌, arith,
}
use animula.Prelude.Int.{pos, pos_part, ltb_ℤ}
use animula.Run.{Run, ok, panic, ◌>>=◌}
use animula.Object.{OType, Object, s32}
use animula.Store.{Store, not_null, fetch, fetch-some}
use animula.Lists.{length_loop, list_length, ref_loop, list_ref}
use animula.Lists.Chain.{Cells, start, Chain, Chain-drop, nil, cons, Holds}

module _ (s : Store) where
  length_loop-length :
      (fuel len : ℕ) {xs : Cells}
      → Chain s.nodes 0 xs
      → length xs < fuel
      → length_loop fuel s (start xs 0) len ≡ ok (len + length xs)
  unfolding length_loop
  length_loop-length zero len c h = absurd (omega (arith, h))
  length_loop-length (suc fuel) len nil h = ap ok (omega arith)
  length_loop-length (suc fuel) len (cons {a} {xs} ne at c) h =
      rw
        (
          not_null a ne,
          fetch-some s.nodes a _ at,
          length_loop-length fuel (len + 1) c (omega arith),
        )
        (ap ok (omega arith))

  ref_loop-drop :
      (fuel i : ℕ) {xs : Cells}
      → Chain s.nodes 0 xs
      → length xs < fuel
      → ref_loop fuel s (start xs 0) i ≡ ok (start (drop i xs) 0)
  unfolding ref_loop
  ref_loop-drop zero i c h = absurd (omega (arith, h))
  ref_loop-drop (suc fuel) zero c h = refl
  ref_loop-drop (suc fuel) (suc i) nil h = refl
  ref_loop-drop (suc fuel) (suc i) (cons {a} ne at c) h =
      rw (not_null a ne, fetch-some s.nodes a _ at) (ref_loop-drop fuel i c (omega arith))

-- The object of a list that the heap has at `p`.
abbrev pub list_object : (gc p : ℕ) → Object
list_object gc p = record { type = OType.list; gc = gc; value = p }

-- `_list_length` terminates on a list of the heap and returns the number of its nodes.
pub list_length-length :
    (fuel : ℕ) (s : Store) (ret : Object) (gc p : ℕ) (xs : Cells)
    → Holds s p xs
    → length xs < fuel
    → list_length fuel s ret (list_object gc p)
      ≡ ok (record ret { type = OType.imm_int; value = length xs % 2 ^ 32 })
unfolding list_length
list_length-length fuel s ret gc p xs hold h =
    rw (fetch-some s.lists p _ hold.at, hold.first, length_loop-length s fuel 0 hold.chain h)
      (ap (λ n. ok (record ret { type = OType.imm_int; value = n % 2 ^ 32 })) (omega arith))

abbrev head? : Cells → Option (ℕ × ℕ)
head? [] = none
head? (x ∷ xs) = some x

get_elem?-drop : (i : ℕ) (xs : Cells) → get_elem? xs i ≡ head? (drop i xs)
get_elem?-drop zero [] = refl
get_elem?-drop zero (x ∷ xs) = refl
get_elem?-drop (suc i) [] = refl
get_elem?-drop (suc i) (x ∷ xs) = get_elem?-drop i xs

abbrev object_of : Store → Option (ℕ × ℕ) → Run Object
object_of s none = panic
object_of s (some (a, o)) = fetch s.objects o

-- What `list-ref` owes: the object of the node at the index, and `PANIC` for an index that the list
-- does not have or that is negative.
abbrev pub element : Store → Cells → (w : ℕ) → Run Object
element s xs w = if ltb w (2 ^ 31) then object_of s (get_elem? xs w) else panic

s32_small : (w : ℕ) → ltb w (2 ^ 31) ≡ true → s32 w ≡ pos w
s32_small w h = ground (arith, h)

s32_negative : (w : ℕ) → ltb w (2 ^ 31) ≡ false → ltb_ℤ (s32 w) (pos 0) ≡ true
s32_negative w h = ground (arith, h)

object_at :
    (s : Store) {xs : Cells}
    → Chain s.nodes 0 xs
    → (if start xs 0 == 0 then panic else fetch s.nodes (start xs 0) >>= λ n. fetch s.objects n.obj)
      ≡ object_of s (head? xs)
object_at s nil = refl
object_at s (cons {a} ne at c) = rw (not_null a ne, fetch-some s.nodes a _ at) refl

not_negative : (w : ℕ) → ltb_ℤ (pos w) (pos 0) ≡ false
not_negative w = ground arith

-- `list-ref` behind its tests of the types.
ref_from : (fuel : ℕ) → Store → (first w : ℕ) → Run Object
unfolding list_ref
ref_from fuel s first w = if first == 0 || ltb_ℤ (s32 w) (pos 0) then panic else do
  node ← ref_loop fuel s first (pos_part (s32 w))
  if node == 0 then panic else do n ← fetch s.nodes node; fetch s.objects n.obj

ref_from-small :
    (fuel : ℕ) (s : Store) (w : ℕ) {xs : Cells}
    → Chain s.nodes 0 xs
    → ltb w (2 ^ 31) ≡ true
    → length xs < fuel
    → ref_from fuel s (start xs 0) w ≡ object_of s (get_elem? xs w)
unfolding ref_from
ref_from-small fuel s w nil small h = refl
ref_from-small fuel s w (cons {a} {o} {xs} ne at c) small h =
    let all = cons ne at c in
    rw
      (
        not_null a ne,
        s32_small w small,
        not_negative w,
        ref_loop-drop s fuel w all h,
        get_elem?-drop w ((a, o) ∷ xs),
        sym (object_at s (Chain-drop w all)),
      )
      refl

ref_from-negative :
    (fuel : ℕ) (s : Store) (first w : ℕ) → ltb w (2 ^ 31) ≡ false → ref_from fuel s first w ≡ panic
unfolding ref_from
ref_from-negative fuel s first w h =
    rw (s32_negative w h) (elim (Bool-cases (first == 0)) [ inl z ↦ rw z refl | inr z ↦ rw z refl ])

-- `_list_ref` of a list of the heap and an integer returns the object of the node at the index, and
-- ends in `PANIC` for a negative index and for one that the list does not have. The fuel is more
-- than the length of the list.
pub list_ref-element :
    (fuel : ℕ) (s : Store) (gc p : ℕ) (idx : Object) (xs : Cells)
    → Holds s p xs
    → idx.type ≡ OType.imm_int
    → length xs < fuel
    → list_ref fuel s (list_object gc p) idx ≡ element s xs idx.value
unfolding list_ref ref_from
list_ref-element fuel s gc p idx xs hold t h =
    rw (t, fetch-some s.lists p _ hold.at, hold.first)
      (elim (Bool-cases (ltb idx.value (2 ^ 31))) [
        | inl small ↦
            let e : object_of s (get_elem? xs idx.value) ≡ element s xs idx.value = rw small refl in
            ref_from-small fuel s idx.value hold.chain small h ∙ e
        | inr large ↦
            let e : panic ≡ element s xs idx.value = rw large refl in
            ref_from-negative fuel s (start xs 0) idx.value large ∙ e
      ])
