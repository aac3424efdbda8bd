-- ===== src/Strings/Laws.antt =====
-- str.c: lengths, references, comparisons and the strings that the primitives make.
use animula.Prelude.{
  ℕ, zero, suc, ◌+◌, ◌-◌, ◌%◌, ◌^◌, ◌<◌, ◌≤◌, ◌≡◌, ◌↔◌, refl, sym, ap, Bool, true, false, ◌||◌, ltb,
  Option, none, some, List, [], ◌∷◌, ◌++◌, length, get_elem?, take, replicate, length-append,
  length-take, length-replicate, take-length, Bool-cases, inl, inr, ltb→lt, arith,
}
use animula.Prelude.Int.{pos, ltb_ℤ}
use animula.Run.{Run, ok, panic}
use animula.Object.{OType, Object, s32, bool_const}
use animula.Store.{Store, fetch-some, put, put_same}
use animula.Strings.{
  bad_range, char_value_valid, max_str_len, validate_string, measure, string_length, string_ref,
  byte_at, string_eq, substring, string_append, make_string, new_string,
}
use animula.Strings.Bytes.Laws.{
  NonZero, equal, equal-eq, strnlen-length, strncpy-take, strncmp_zero-equal, NonZero-take,
  NonZero-append, NonZero-replicate,
}

-- A text of `MAX_STR_LEN` bytes at most stands at the address `p`, before a zero.
pub record Text (s : Store) (p : ℕ) (cs : List ℕ) : Type 0 where
  pub rest : List ℕ
  pub at : s.strings p ≡ some (cs ++ (0 ∷ rest))
  pub no_zero : NonZero cs
  pub short : length cs ≤ max_str_len

abbrev pub IsString : Object → Type 0
IsString o = validate_string o ≡ ok tt

pub measure-length :
    {s : Store} (o : Object) {cs : List ℕ} → Text s o.value cs → measure s o ≡ ok (length cs)
measure-length {s} o {cs} text =
    rw (fetch-some s.strings o.value _ text.at)
      (strnlen-length cs text.rest max_str_len text.no_zero text.short)

-- What `string-ref` owes and the zero behind it, and refuses every other index.
abbrev char_at : Object → Option ℕ → Run Object
char_at ret none = panic
char_at ret (some c) = ok (record ret { type = OType.character; value = c })

-- The test of an index of 32 bits against a length.
pub index_test : (w n : ℕ) → n ≤ 256 → (ltb_ℤ (s32 w) (pos 0) || ltb_ℤ (pos n) (s32 w)) ≡ ltb n w
index_test w n h = elim (Bool-cases (ltb w (2 ^ 31))) [
  | inl e ↦ rw e (ground (arith, e, h))
  | inr e ↦ rw e (ground (arith, e, h))
]

byte_at-some : (block : List ℕ) (i c : ℕ) → get_elem? block i ≡ some c → byte_at block i ≡ ok c
byte_at-some block i c e = ground (arith, e)

read_text :
    (cs rest : List ℕ) (w : ℕ)
    → w ≤ length cs
    → (c : ℕ) × (get_elem? (cs ++ (0 ∷ rest)) w ≡ some c) × (get_elem? (cs ++ (0 ∷ [])) w ≡ some c)
read_text [] rest zero h = (0, refl, refl)
read_text [] rest (suc w) h = absurd (omega (arith, h))
read_text (c ∷ cs) rest zero h = (c, refl, refl)
read_text (c ∷ cs) rest (suc w) h = read_text cs rest w (omega arith)

read_behind : (cs : List ℕ) (w : ℕ) → length cs < w → get_elem? (cs ++ (0 ∷ [])) w ≡ none
read_behind [] zero h = absurd (omega (arith, h))
read_behind [] (suc w) h = refl
read_behind (c ∷ cs) zero h = absurd (omega (arith, h))
read_behind (c ∷ cs) (suc w) h = read_behind cs w (omega arith)

-- `_string_ref` of a string and an integer returns the character of the text at the index, or the
-- zero behind the text, and ends in `PANIC` for every other index.
pub string_ref-char_at :
    (s : Store) (ret obj index : Object) (cs : List ℕ)
    → IsString obj
    → index.type ≡ OType.imm_int
    → Text s obj.value cs
    → string_ref s ret obj index ≡ char_at ret (get_elem? (cs ++ (0 ∷ [])) index.value)
unfolding string_ref
string_ref-char_at s ret obj index cs is t text =
    rw (is, t, measure-length obj text, index_test index.value (length cs) text.short)
      (elim (Bool-cases (ltb (length cs) index.value)) [
        | inl e ↦ rw (e, read_behind cs index.value (ltb→lt _ _ e)) refl
        | inr e ↦
            let (c, here, there) = read_text cs text.rest index.value (ground (arith, e)) in
            rw (e, fetch-some s.strings obj.value _ text.at, byte_at-some _ _ c here, there) refl
      ])

pub string_length-length :
    (s : Store) (ret obj : Object) (cs : List ℕ)
    → IsString obj
    → Text s obj.value cs
    → string_length s ret obj ≡ ok (record ret { value = length cs })
unfolding string_length
string_length-length s ret obj cs is text = rw (is, measure-length obj text) refl

-- `_string_eq` of two strings answers with a boolean, which is true just where their texts are equal.
pub string_eq-decides :
    (s : Store) (str0 str1 : Object) (cs ds : List ℕ)
    → IsString str0
    → IsString str1
    → Text s str0.value cs
    → Text s str1.value ds
    → (b : Bool) × (string_eq s str0 str1 ≡ ok (bool_const b)) × ((b ≡ true) ↔ (cs ≡ ds))
unfolding string_eq
string_eq-decides s str0 str1 cs ds is is' text text' = (
  equal cs ds,
  rw
      (
        is,
        is',
        fetch-some s.strings str0.value _ text.at,
        fetch-some s.strings str1.value _ text'.at,
        strncmp_zero-equal cs ds text.rest text'.rest max_str_len text.no_zero text'.no_zero
            text.short text'.short,
      )
      refl,
  equal-eq cs ds,
)

pub range_ok : (s e n : ℕ) → s ≤ e → e ≤ n → n ≤ 256 → bad_range (s32 s) (s32 e) n ≡ false
range_ok s e n le le' small =
    let es : ltb s (2 ^ 31) ≡ true = ground arith in
    let ee : ltb e (2 ^ 31) ≡ true = ground arith in rw (es, ee) (ground (arith, le, le'))

-- A new string with the text `cs`.
abbrev pub Makes : Store → Run (Object × Store) → List ℕ → Type 0
Makes s run cs =
    (r : Object) × (s' : Store) × (run ≡ ok (r, s'))
    × (r.type ≡ OType.mut_string)
    × (r.value ≡ s.next)
    × Text s' s.next cs

new_string-Makes :
    (s : Store) (ret : Object) (cs : List ℕ)
    → NonZero cs
    → length cs ≤ max_str_len
    → Makes s (ok (new_string s ret (cs ++ (0 ∷ [])))) cs
new_string-Makes s ret cs ne h = (
  record ret { type = OType.mut_string; value = s.next },
  record s { next = s.next + 1; strings = put s.strings s.next (cs ++ (0 ∷ [])) },
  refl,
  refl,
  refl,
  record { rest = []; at = put_same s.strings s.next (cs ++ (0 ∷ [])); no_zero = ne; short = h },
)

pub append_assoc : (xs ys zs : List ℕ) → (xs ++ ys) ++ zs ≡ xs ++ (ys ++ zs)
append_assoc [] ys zs = refl
append_assoc (x ∷ xs) ys zs = ap (◌∷◌ x) (append_assoc xs ys zs)

-- `_string_append` refines the concatenation of texts: of two strings with `MAX_STR_LEN` bytes at most
-- together it makes a new one with both texts.
pub string_append-refines :
    (s : Store) (ret str0 str1 : Object) (cs ds : List ℕ)
    → IsString str0
    → IsString str1
    → Text s str0.value cs
    → Text s str1.value ds
    → length cs + length ds ≤ max_str_len
    → Makes s (string_append s ret str0 str1) (cs ++ ds)
unfolding string_append
string_append-refines s ret str0 str1 cs ds is is' text text' short =
    rw
      (
        is,
        is',
        measure-length str0 text,
        measure-length str1 text',
        fetch-some s.strings str0.value _ text.at,
        fetch-some s.strings str1.value _ text'.at,
        strncpy-take cs _ (length cs) text.no_zero (omega arith),
        strncpy-take ds _ (length ds) text'.no_zero (omega arith),
        take-length cs,
        take-length ds,
        sym (append_assoc cs ds (0 ∷ [])),
      )
      (new_string-Makes s ret (cs ++ ds) (NonZero-append cs ds text.no_zero text'.no_zero)
        (omega (arith, length-append cs ds, short)))

-- `_substring` of a string, with indices in order and not behind its text, makes a new string of as
-- many characters as lie between them, but from the start of the text.
pub substring-prefix :
    (s : Store) (ret str0 start end : Object) (cs : List ℕ)
    → IsString str0
    → start.type ≡ OType.imm_int
    → end.type ≡ OType.imm_int
    → Text s str0.value cs
    → start.value ≤ end.value
    → end.value ≤ length cs
    → Makes s (substring s ret str0 start end) (take (end.value - start.value) cs)
unfolding substring
substring-prefix s ret str0 start end cs is t t' text le le' =
    rw
      (
        is,
        t,
        t',
        measure-length str0 text,
        range_ok start.value end.value (length cs) le le' text.short,
        fetch-some s.strings str0.value _ text.at,
        strncpy-take cs _ (end.value - start.value) text.no_zero (omega arith),
      )
      (new_string-Makes s ret (take (end.value - start.value) cs)
        (NonZero-take (end.value - start.value) cs text.no_zero)
        (omega (arith, length-take (end.value - start.value) cs, text.short)))

-- `_make_string` makes the text of `length` times the character.
pub make_string-Makes :
    (s : Store) (ret length char0 : Object)
    → length.type ≡ OType.imm_int
    → char0.type ≡ OType.character
    → length.value ≤ max_str_len
    → 0 < char0.value
    → char0.value < 256
    → Makes s (make_string s ret length char0) (replicate length.value char0.value)
unfolding make_string
make_string-Makes s ret length char0 t t' short low high =
    let w = length.value in
    let v = char0.value in
    let ew : s32 w ≡ pos w = ground (arith, short) in
    let ev : s32 v ≡ pos v = ground (arith, high) in
    let valid : char_value_valid (pos v) ≡ true = ground (arith, low, high) in
    let not_negative : ltb_ℤ (pos w) (pos 0) ≡ false = ground arith in
    let byte : v % 2 ^ 8 ≡ v = omega arith in
    rw (t, t', ev, valid, ew, not_negative, byte)
      (new_string-Makes s ret (replicate w v) (NonZero-replicate w v (λ e. omega (arith, e)))
        (omega (arith, length-replicate w v, short)))
