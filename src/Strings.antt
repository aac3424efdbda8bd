-- ===== src/Strings.antt =====
-- str.c: strings, which are blocks of bytes that a zero ends, and their primitives.
pub mod Bytes
pub mod Laws
pub mod Update
pub mod FromList
mod Tests
use animula.Prelude.{
  ℕ, zero, suc, ◌+◌, ◌-◌, ◌%◌, ◌^◌, Bool, true, false, not, ◌||◌, ◌&&◌, ltb, ◌==◌, if◌then◌else◌,
  List, [], ◌∷◌, ◌++◌, length, get_elem?, none, some, set, replicate, take, drop,
}
use animula.Prelude.Int.{ℤ, pos, negsuc, pos_part, ltb_ℤ, leb_ℤ, ◌-ℤ◌}
use animula.Run.{Run, ok, panic, fault, ◌>>=◌, ◌>>◌, require}
use animula.Object.{OType, Object, same, s32, bool_const, validate}
use animula.Store.{Store, put, fetch}
use animula.Lists.{list_first}
use animula.Strings.Bytes.{strnlen, strncmp_zero, strncpy, write}

abbrev pub max_str_len : ℕ
max_str_len = 256

-- `VALIDATE_STRING`.
abbrev pub validate_string : Object → Run (Unit {0})
validate_string o = require (same o.type OType.string || same o.type OType.mut_string)

-- A new block, to which a result of type `mut_string` points.
abbrev pub new_string : Store → Object → List ℕ → Object × Store
new_string s ret block = (
  record ret { type = OType.mut_string; value = s.next },
  record s { next = s.next + 1; strings = put s.strings s.next block },
)

-- `os_strnlen ((char *) o->value, MAX_STR_LEN)`.
abbrev pub measure : Store → Object → Run ℕ
measure s o = do block ← fetch s.strings o.value; strnlen block max_str_len

unfoldable pub str_eq : Store → (s1 s2 : Object) → Run Bool
str_eq s s1 s2 = do
  a ← fetch s.strings s1.value
  b ← fetch s.strings s2.value
  strncmp_zero a b max_str_len

-- The loop over the list, which runs on fuel: the bytes in `buf`, the count of which is the length.
-- A write behind the end of `buf` is a fault.
unfoldable pub collect : ℕ → Store → (node cnt : ℕ) → Run (List ℕ)
collect zero s node cnt = fault
collect (suc fuel) s node cnt = if node == 0 then ok [] else do
  n ← fetch s.nodes node
  o ← fetch s.objects n.obj
  if ltb cnt max_str_len
      then (do rest ← collect fuel s n.next (cnt + 1); ok (o.value % 2 ^ 8 ∷ rest))
      else fault

-- The block has no room for the zero that ends `buf`.
unfoldable pub list_to_string : (fuel : ℕ) → Store → (ret lst : Object) → Run (Object × Store)
list_to_string fuel s ret lst = do
  first ← list_first s lst
  bytes ← collect fuel s first 0
  if ltb (length bytes) max_str_len then ok (new_string s ret bytes) else fault

unfoldable pub string_p : Object → Object
string_p obj = bool_const (same obj.type OType.string || same obj.type OType.mut_string)

unfoldable pub char_p : Object → Object
char_p obj = bool_const (same obj.type OType.character)

unfoldable pub keyword_p : Object → Object
keyword_p obj = bool_const (same obj.type OType.keyword)

-- `CHAR_VALUE_VALID`.
abbrev pub char_value_valid : ℤ → Bool
char_value_valid c = ltb_ℤ (pos 0) c && leb_ℤ c (pos 255)

-- A negative length is a huge one for `memset`.
unfoldable pub make_string : Store → (ret length char0 : Object) → Run (Object × Store)
make_string s ret length char0 = do
  validate length OType.imm_int
  validate char0 OType.character
  if not (char_value_valid (s32 char0.value))
      then panic
      else if ltb_ℤ (s32 length.value) (pos 0)
      then fault
      else do
        let block = replicate (pos_part (s32 length.value)) (char0.value % 2 ^ 8) ++ (0 ∷ [])
        ok (new_string s ret block)

-- The type of `ret` stays: both assignments are to its value.
unfoldable pub string_length : Store → (ret obj : Object) → Run Object
string_length s ret obj = do
  validate_string obj
  len ← measure s obj
  ok (record ret { value = len })

abbrev pub byte_at : List ℕ → (i : ℕ) → Run ℕ
byte_at block i = elim (get_elem? block i) [ none ↦ fault | some c ↦ ok c ]

-- `char` is unsigned.
unfoldable pub string_ref : Store → (ret obj index : Object) → Run Object
string_ref s ret obj index = do
  validate_string obj
  validate index OType.imm_int
  len ← measure s obj
  if ltb_ℤ (s32 index.value) (pos 0) || ltb_ℤ (pos len) (s32 index.value) then panic else do
    block ← fetch s.strings obj.value
    c ← byte_at block index.value
    ok (record ret { type = OType.character; value = c })

-- A write out of the block is a fault.
unfoldable pub string_set : Store → (ret obj index char0 : Object) → Run (Object × Store)
string_set s ret obj index char0 = do
  validate obj OType.mut_string
  validate index OType.imm_int
  validate char0 OType.character
  if not (char_value_valid (s32 char0.value)) then panic else do
    block ← fetch s.strings obj.value
    if ltb_ℤ (s32 index.value) (pos 0) || not (ltb index.value (length block))
        then fault
        else ok (
          record ret { type = OType.none; value = 0 },
          record s {
            strings = put s.strings obj.value (set block index.value (char0.value % 2 ^ 8));
          },
        )

-- The result of the test of the pointers is overwritten.
unfoldable pub string_eq : Store → (str0 str1 : Object) → Run Object
string_eq s str0 str1 = do
  validate_string str0
  validate_string str1
  a ← fetch s.strings str0.value
  b ← fetch s.strings str1.value
  equal ← strncmp_zero a b max_str_len
  ok (bool_const equal)

-- `0 > s || s > len` and `e < s || e > len`.
abbrev pub bad_range : ℤ → ℤ → (len : ℕ) → Bool
bad_range s e len = ltb_ℤ s (pos 0) || ltb_ℤ (pos len) s || ltb_ℤ e s || ltb_ℤ (pos len) e

-- `strncpy` copies from the start of the string.
unfoldable pub substring : Store → (ret str0 start end : Object) → Run (Object × Store)
substring s ret str0 start end = do
  validate_string str0
  validate start OType.imm_int
  validate end OType.imm_int
  len ← measure s str0
  if bad_range (s32 start.value) (s32 end.value) len then panic else do
    let new_len = end.value - start.value
    block ← fetch s.strings str0.value
    bytes ← strncpy block new_len
    ok (new_string s ret (bytes ++ (0 ∷ [])))

unfoldable pub string_copy : Store → (ret str0 start end : Object) → Run (Object × Store)
string_copy = substring

-- The block is new, so zero, behind the two copies.
unfoldable pub string_append : Store → (ret str0 str1 : Object) → Run (Object × Store)
string_append s ret str0 str1 = do
  validate_string str0
  validate_string str1
  len0 ← measure s str0
  len1 ← measure s str1
  a ← fetch s.strings str0.value
  b ← fetch s.strings str1.value
  head ← strncpy a len0
  tail ← strncpy b len1
  ok (new_string s ret (head ++ (tail ++ (0 ∷ []))))

-- Both lengths are those of `str0`. A copy between overlapping parts of one string is a fault. The
-- block that it also allocates is not used.
unfoldable pub string_copy_side_effect :
    Store → (ret str0 at str1 start end : Object) → Run (Object × Store)
string_copy_side_effect s ret str0 at str1 start end = do
  validate_string str0
  validate at OType.imm_int
  validate_string str1
  validate start OType.imm_int
  validate end OType.imm_int
  len0 ← measure s str0
  len1 ← measure s str0
  let a = s32 at.value
  if ltb_ℤ a (pos 0) || ltb_ℤ (pos len0) a
      then panic
      else if bad_range (s32 start.value) (s32 end.value) len1
      then panic
      else if ltb (len0 - at.value) (end.value - start.value)
      then panic
      else do
        let n = end.value - start.value
        dst ← fetch s.strings str0.value
        src ← fetch s.strings str1.value
        bytes ← if ltb (length src) start.value then fault else strncpy (drop start.value src) n
        if str0.value == str1.value
              && ltb at.value (start.value + n)
              && ltb start.value (at.value + n)
            then fault
            else do
              block ← write dst at.value bytes
              ok (
                record ret { type = OType.none; value = 0 },
                record s { next = s.next + 1; strings = put s.strings str0.value block },
              )

unfoldable pub string_fill : Store → (ret str0 fill start end : Object) → Run (Object × Store)
string_fill s ret str0 fill start end = do
  validate_string str0
  validate fill OType.character
  validate start OType.imm_int
  validate end OType.imm_int
  len ← measure s str0
  if bad_range (s32 start.value) (s32 end.value) len then panic else do
    block ← fetch s.strings str0.value
    filled ← write block start.value (replicate (end.value - start.value) (fill.value % 2 ^ 8))
    ok (
      record ret { type = OType.none; value = 0 },
      record s { strings = put s.strings str0.value filled },
    )
