-- ===== src/Lef/Laws.antt =====
-- What the loader makes of the bytes of an image.
use animula.Prelude.{
  ℕ, ◌+◌, ◌/◌, ◌%◌, ◌^◌, ◌<◌, ◌≤◌, ◌≡◌, refl, sym, ap, ◌∙◌, List, [], ◌∷◌, ◌++◌, length, take, drop,
  leb, length-append, take-append, true, arith,
}
use animula.Run.{ok}
use animula.Lef.{
  Lef, big, os_read, os_read_u32, body_bytes, lef_prog, lef_body_size, load_lef_from_file,
}

-- Numbers of 16 and 32 bits in a file.
abbrev pub u16_bytes : ℕ → List ℕ
u16_bytes v = v / 256 ∷ v % 256 ∷ []

abbrev pub u32_bytes : ℕ → List ℕ
u32_bytes v = v / 2 ^ 24 ∷ v / 2 ^ 16 % 256 ∷ v / 256 % 256 ∷ v % 256 ∷ []

-- The parts of an image: the symbols with their count, the entry of the program and the rest of
-- the memory section; the globals, the program and the cleaning code.
pub record Image : Type 0 where
  pub ver : List ℕ
  pub cnt : ℕ
  pub symbols : List ℕ
  pub entry : ℕ
  pub memory : List ℕ
  pub globals : List ℕ
  pub program : List ℕ
  pub clean : List ℕ

abbrev pub mem_section : Image → List ℕ
mem_section i =
    u16_bytes i.cnt
    ++ (u16_bytes (length i.symbols) ++ (i.symbols ++ (u32_bytes i.entry ++ i.memory)))

abbrev pub image_body : Image → List ℕ
image_body i = mem_section i ++ (i.globals ++ (i.program ++ i.clean))

-- The file of an image, with `more` behind it.
abbrev pub image_bytes : Image → (more : List ℕ) → List ℕ
image_bytes i more =
    (76 ∷ 69 ∷ 70 ∷ [])
    ++ (i.ver
        ++ (u32_bytes (length (mem_section i))
            ++ (u32_bytes (length i.globals)
                ++ (u32_bytes (length i.program)
                    ++ (u32_bytes (length i.clean) ++ (image_body i ++ more))))))

pub record IsImage (i : Image) : Type 0 where
  pub version : length i.ver ≡ 3
  pub symbols_fit : 4 + length i.symbols < 2 ^ 16
  pub body_fits : length (image_body i) < 2 ^ 32

module _ {A : Type 0} where
  drop-append : (xs ys : List A) → drop (length xs) (xs ++ ys) ≡ ys
  drop-append [] ys = refl
  drop-append (x ∷ xs) ys = drop-append xs ys

  drop-append_at : (n : ℕ) (xs ys : List A) → length xs ≡ n → drop n (xs ++ ys) ≡ ys
  drop-append_at n xs ys e = ap (λ m. drop m (xs ++ ys)) (sym e) ∙ drop-append xs ys

  take-append_at : (n : ℕ) (xs ys : List A) → length xs ≡ n → take n (xs ++ ys) ≡ xs
  take-append_at n xs ys e = ap (λ m. take m (xs ++ ys)) (sym e) ∙ take-append xs ys

le→leb : (a b : ℕ) → a ≤ b → leb a b ≡ true
le→leb a b h = ground arith

os_read-append : (n : ℕ) (xs ys : List ℕ) → length xs ≡ n → os_read n (xs ++ ys) ≡ ok (xs, ys)
unfolding os_read
os_read-append n xs ys e =
    rw
      (
        le→leb n (length (xs ++ ys)) (omega (arith, e, length-append xs ys)),
        take-append_at n xs ys e,
        drop-append_at n xs ys e,
      )
      refl

os_read_u32-bytes : (v : ℕ) (ys : List ℕ) → os_read_u32 (u32_bytes v ++ ys) ≡ ok (v, ys)
unfolding os_read_u32
os_read_u32-bytes v ys =
    rw (os_read-append 4 (u32_bytes v) ys refl) (ap (λ n. ok (n, ys)) (omega arith))

body_bytes-append :
    (n offset : ℕ) (xs ys zs : List ℕ)
    → length xs ≡ offset
    → length ys ≡ n
    → body_bytes n offset (xs ++ (ys ++ zs)) ≡ ok (big 0 ys)
unfolding body_bytes
body_bytes-append n offset xs ys zs e e' =
    rw
      (
        le→leb (offset + n) (length (xs ++ (ys ++ zs)))
            (omega (arith, e, e', length-append xs (ys ++ zs), length-append ys zs)),
        drop-append_at offset xs (ys ++ zs) e,
        take-append_at n ys zs e',
      )
      refl

abbrev pub loaded : Image → Lef
loaded i = record {
  sig = 76 ∷ 69 ∷ 70 ∷ [];
  ver = i.ver;
  msize = length (mem_section i);
  gsize = length i.globals;
  psize = length i.program;
  csize = length i.clean;
  entry = i.entry;
  body = image_body i;
  symtab_cnt = i.cnt;
  symtab_entry = 4;
}

append_assoc : (xs ys zs : List ℕ) → (xs ++ ys) ++ zs ≡ xs ++ (ys ++ zs)
append_assoc [] ys zs = refl
append_assoc (x ∷ xs) ys zs = ap (◌∷◌ x) (append_assoc xs ys zs)

big-u16_bytes : (v : ℕ) → big 0 (u16_bytes v) ≡ v
big-u16_bytes v = omega arith

big-u32_bytes : (v : ℕ) → big 0 (u32_bytes v) ≡ v
big-u32_bytes v = omega arith

module _ (i : Image) where
  body-cnt : body_bytes 2 0 (image_body i) ≡ ok i.cnt
  body-cnt = body_bytes-append 2 0 [] (u16_bytes i.cnt) _ refl refl ∙ ap ok (big-u16_bytes i.cnt)

  body-symtab_size : body_bytes 2 2 (image_body i) ≡ ok (length i.symbols)
  body-symtab_size =
      body_bytes-append 2 2 (u16_bytes i.cnt) (u16_bytes (length i.symbols)) _ refl refl
      ∙ ap ok (big-u16_bytes (length i.symbols))

  abbrev head : List ℕ
  head = u16_bytes i.cnt ++ (u16_bytes (length i.symbols) ++ i.symbols)

  body_entry :
      image_body i
      ≡ head ++ (u32_bytes i.entry ++ (i.memory ++ (i.globals ++ (i.program ++ i.clean))))
  body_entry =
      ap (λ r. u16_bytes i.cnt ++ (u16_bytes (length i.symbols) ++ r))
        (append_assoc i.symbols (u32_bytes i.entry ++ i.memory)
          (i.globals ++ (i.program ++ i.clean)))

  body-entry :
      IsImage i → body_bytes 4 ((4 + length i.symbols) % 2 ^ 16) (image_body i) ≡ ok i.entry
  body-entry is =
      ap (body_bytes 4 ((4 + length i.symbols) % 2 ^ 16)) body_entry
      ∙ body_bytes-append 4 ((4 + length i.symbols) % 2 ^ 16) head (u32_bytes i.entry) _
          (omega (arith, is.symbols_fit)) refl
      ∙ ap ok (big-u32_bytes i.entry)

  body-size :
      IsImage i
      → length (image_body i)
        ≡ lef_body_size
            (length (mem_section i))
            (length i.globals)
            (length i.program)
            (length i.clean)
  body-size is = omega (
    arith,
    is.body_fits,
    length-append (mem_section i) (i.globals ++ (i.program ++ i.clean)),
    length-append i.globals (i.program ++ i.clean),
    length-append i.program i.clean,
  )

  program-at : lef_prog (loaded i) ≡ i.program ++ i.clean
  program-at =
      ap (drop (length (mem_section i) + length i.globals))
        (sym (append_assoc (mem_section i) i.globals (i.program ++ i.clean)))
      ∙ drop-append_at _ (mem_section i ++ i.globals) (i.program ++ i.clean)
          (length-append (mem_section i) i.globals)

-- From the file of an image whose version has three bytes, whose symbols fit into 16 bits and whose
-- body fits into 32, whatever is behind it, the loader makes the header, the entry and the body of the
-- image, and `LEF_PROG` with the size of the program is the program.
pub load-image :
    (i : Image) (more : List ℕ)
    → IsImage i
    → (load_lef_from_file (image_bytes i more) ≡ ok (loaded i))
      × (take (length i.program) (lef_prog (loaded i)) ≡ i.program)
unfolding load_lef_from_file
load-image i more is = (
  rw
      (
        os_read-append 3 (76 ∷ 69 ∷ 70 ∷ []) _ refl,
        os_read-append 3 i.ver _ is.version,
        os_read_u32-bytes (length (mem_section i)),
        os_read_u32-bytes (length i.globals),
        os_read_u32-bytes (length i.program),
        os_read_u32-bytes (length i.clean),
        os_read-append _ (image_body i) more (body-size i is),
        body-cnt i,
        body-symtab_size i,
        body-entry i is,
      )
      refl,
  ap (take (length i.program)) (program-at i) ∙ take-append i.program i.clean,
)
