-- ===== src/Strings/Update.antt =====
-- str.c: the primitives that write to a string, and the one that makes a string from a list.
use animula.Prelude.{
  ℕ, zero, suc, ◌+◌, ◌-◌, ◌%◌, ◌^◌, ◌<◌, ◌≤◌, ◌≡◌, ◌≢◌, refl, ap, ◌∙◌, true, false, ltb, ◌==◌, some,
  List, [], ◌∷◌, ◌++◌, length, set, take, drop, replicate, length-append, length-take, length-drop,
  length-replicate, length-set, arith,
}
use animula.Prelude.Int.{pos, ltb_ℤ}
use animula.Run.{ok}
use animula.Object.{OType, Object, s32}
use animula.Store.{Store, fetch-some, put, put_same}
use animula.Lists.Chain.{start}
use animula.Strings.{char_value_valid, string_set, string_fill, string_copy_side_effect}
use animula.Strings.Bytes.{write}
use animula.Strings.Bytes.Laws.{
  NonZero, strncpy-take, NonZero-take, NonZero-drop, NonZero-append, NonZero-replicate, NonZero-set,
}
use animula.Strings.Laws.{Text, IsString, measure-length, range_ok, append_assoc}

set-append : (cs ds : List ℕ) (i c : ℕ) → i < length cs → set (cs ++ ds) i c ≡ set cs i c ++ ds
set-append [] ds i c h = absurd (omega (arith, h))
set-append (d ∷ cs) ds zero c h = refl
set-append (d ∷ cs) ds (suc i) c h = ap (◌∷◌ d) (set-append cs ds i c (omega arith))

-- `_string_set` at an index of the text puts the character there.
pub string_set-set :
    (s : Store) (ret obj index char0 : Object) (cs : List ℕ)
    → obj.type ≡ OType.mut_string
    → index.type ≡ OType.imm_int
    → char0.type ≡ OType.character
    → Text s obj.value cs
    → index.value < length cs
    → 0 < char0.value
    → char0.value < 256
    → (r : Object) × (s' : Store) × (string_set s ret obj index char0 ≡ ok (r, s'))
      × Text s' obj.value (set cs index.value char0.value)
unfolding string_set
string_set-set s ret obj index char0 cs t t' t'' text lt char_low char_high =
    let block = cs ++ (0 ∷ text.rest) in
    let w = index.value in
    let v = char0.value in
    let ew : s32 w ≡ pos w = ground (arith, lt, text.short) in
    let ev : s32 v ≡ pos v = ground (arith, char_high) in
    let valid : char_value_valid (pos v) ≡ true = ground (arith, char_low, char_high) in
    let not_negative : ltb_ℤ (pos w) (pos 0) ≡ false = ground arith in
    let inside : ltb w (length block) ≡ true =
      ground (arith, lt, length-append cs (0 ∷ text.rest)) in
    let byte : v % 2 ^ 8 ≡ v = omega arith in
    let after : set block w (v % 2 ^ 8) ≡ set cs w v ++ (0 ∷ text.rest) =
      rw byte (set-append cs (0 ∷ text.rest) w v lt) in
    (
      record ret { type = OType.none; value = 0 },
      record s { strings = put s.strings obj.value (set block w (v % 2 ^ 8)) },
      rw (t, t', t'', ev, ew, valid, fetch-some s.strings obj.value _ text.at, not_negative, inside)
          refl,
      record {
        rest = text.rest;
        at = put_same s.strings obj.value _ ∙ ap some after;
        no_zero = NonZero-set cs w v text.no_zero (λ e. omega (arith, e));
        short = omega (arith, length-set cs w v, text.short);
      },
    )

-- The text with `bytes` in place of those from `i` on.
abbrev pub splice : List ℕ → (i : ℕ) → List ℕ → List ℕ
splice cs i bytes = take i cs ++ (bytes ++ drop (i + length bytes) cs)

take-append_le : (n : ℕ) (xs ys : List ℕ) → n ≤ length xs → take n (xs ++ ys) ≡ take n xs
take-append_le zero xs ys h = refl
take-append_le (suc n) [] ys h = absurd (omega (arith, h))
take-append_le (suc n) (x ∷ xs) ys h = ap (◌∷◌ x) (take-append_le n xs ys (omega arith))

drop-append_le : (n : ℕ) (xs ys : List ℕ) → n ≤ length xs → drop n (xs ++ ys) ≡ drop n xs ++ ys
drop-append_le zero xs ys h = refl
drop-append_le (suc n) [] ys h = absurd (omega (arith, h))
drop-append_le (suc n) (x ∷ xs) ys h = drop-append_le n xs ys (omega arith)

write-splice :
    (cs tail : List ℕ) (i : ℕ) (bytes : List ℕ)
    → i + length bytes ≤ length cs
    → write (cs ++ tail) i bytes ≡ ok (splice cs i bytes ++ tail)
write-splice cs tail i bytes h =
    let inside : ltb (length (cs ++ tail)) (i + length bytes) ≡ false =
      ground (arith, h, length-append cs tail) in
    rw
      (
        inside,
        take-append_le i cs tail (omega arith),
        drop-append_le (i + length bytes) cs tail h,
        append_assoc (take i cs) (bytes ++ drop (i + length bytes) cs) tail,
        append_assoc bytes (drop (i + length bytes) cs) tail,
      )
      refl

splice-Text :
    (s : Store) (next p : ℕ) (cs : List ℕ) (i : ℕ) (bytes : List ℕ)
    → (text : Text s p cs) → NonZero bytes
    → i + length bytes ≤ length cs
    → Text
        (record s { next = next; strings = put s.strings p (splice cs i bytes ++ (0 ∷ text.rest)) })
        p
        (splice cs i bytes)
splice-Text s next p cs i bytes text ne h = record {
  rest = text.rest;
  at = put_same s.strings p _;
  no_zero =
      NonZero-append (take i cs) _ (NonZero-take i cs text.no_zero)
        (NonZero-append bytes _ ne (NonZero-drop (i + length bytes) cs text.no_zero));
  short = omega (
    arith,
    text.short,
    length-append (take i cs) (bytes ++ drop (i + length bytes) cs),
    length-append bytes (drop (i + length bytes) cs),
    length-take i cs,
    length-drop (i + length bytes) cs,
  );
}

-- `_string_fill` writes the character to the places from `start` to `end` of the text.
pub string_fill-splice :
    (s : Store) (ret str0 fill start end : Object) (cs : List ℕ)
    → IsString str0
    → fill.type ≡ OType.character
    → start.type ≡ OType.imm_int
    → end.type ≡ OType.imm_int
    → Text s str0.value cs
    → 0 < fill.value
    → fill.value < 256
    → start.value ≤ end.value
    → end.value ≤ length cs
    → (r : Object) × (s' : Store) × (string_fill s ret str0 fill start end ≡ ok (r, s'))
      × Text s' str0.value (splice cs start.value (replicate (end.value - start.value) fill.value))
unfolding string_fill
string_fill-splice s ret str0 fill start end cs is t t' t'' text low high le le' =
    let bytes = replicate (end.value - start.value) fill.value in
    let byte : fill.value % 2 ^ 8 ≡ fill.value = omega arith in
    let fits : start.value + length bytes ≤ length cs =
      omega (arith, le, le', length-replicate (end.value - start.value) fill.value) in
    (
      record ret { type = OType.none; value = 0 },
      record s {
        strings = put s.strings str0.value (splice cs start.value bytes ++ (0 ∷ text.rest));
      },
      rw
          (
            is,
            t,
            t',
            t'',
            measure-length str0 text,
            range_ok start.value end.value (length cs) le le' text.short,
            fetch-some s.strings str0.value _ text.at,
            byte,
            write-splice cs _ start.value bytes fits,
          )
          refl,
      splice-Text s s.next str0.value cs start.value bytes text
          (NonZero-replicate (end.value - start.value) fill.value (λ e. omega (arith, e))) fits,
    )

-- `_string_copy_side_effect` copies the part of one string from `start` to `end` into another one, at
-- `at`, if it fits there and ends neither behind its own text nor behind the length of the target,
-- which is the one that the code tests.
pub string_copy-splice :
    (s : Store) (ret str0 at str1 start end : Object) (cs ds : List ℕ)
    → IsString str0
    → IsString str1
    → at.type ≡ OType.imm_int
    → start.type ≡ OType.imm_int
    → end.type ≡ OType.imm_int
    → Text s str0.value cs
    → Text s str1.value ds
    → str0.value ≢ str1.value
    → start.value ≤ end.value
    → end.value ≤ length ds
    → end.value ≤ length cs
    → at.value + (end.value - start.value) ≤ length cs
    → (r : Object) × (s' : Store) × (string_copy_side_effect s ret str0 at str1 start end
        ≡ ok (r, s'))
      × Text s' str0.value
          (splice cs at.value (take (end.value - start.value) (drop start.value ds)))
unfolding string_copy_side_effect
string_copy-splice s ret str0 at str1 start end cs ds is is' t t' t'' text text' ne le le₁ le₀
      fits =
    let n = end.value - start.value in
    let part = drop start.value ds in
    let bytes = take n part in
    let size : length bytes ≡ n =
      length-take n part ∙ omega (arith, length-drop start.value ds, le, le₁) in
    let room : at.value + length bytes ≤ length cs = omega (arith, size, fits) in
    let ea : s32 at.value ≡ pos at.value = ground (arith, fits, text.short) in
    let low : ltb_ℤ (pos at.value) (pos 0) ≡ false = ground arith in
    let high : ltb_ℤ (pos (length cs)) (pos at.value) ≡ false = ground (arith, fits) in
    let enough : ltb (length cs - at.value) n ≡ false = ground (arith, fits) in
    let source : ltb (length (ds ++ (0 ∷ text'.rest))) start.value ≡ false =
      ground (arith, le, le₁, length-append ds (0 ∷ text'.rest)) in
    let other : (str0.value == str1.value) ≡ false = ground (arith, ne) in
    (
      record ret { type = OType.none; value = 0 },
      record s {
        next = s.next + 1;
        strings = put s.strings str0.value (splice cs at.value bytes ++ (0 ∷ text.rest));
      },
      rw
          (
            is,
            is',
            t,
            t',
            t'',
            measure-length str0 text,
            ea,
            low,
            high,
            range_ok start.value end.value (length cs) le le₀ text.short,
            enough,
            fetch-some s.strings str0.value _ text.at,
            fetch-some s.strings str1.value _ text'.at,
            source,
            drop-append_le start.value ds (0 ∷ text'.rest) (omega arith),
            strncpy-take part (0 ∷ text'.rest) n (NonZero-drop start.value ds text'.no_zero)
                (omega (arith, length-drop start.value ds, le, le₁)),
            other,
            write-splice cs _ at.value bytes room,
          )
          refl,
      splice-Text s (s.next + 1) str0.value cs at.value bytes text
          (NonZero-take n part (NonZero-drop start.value ds text'.no_zero)) room,
    )
