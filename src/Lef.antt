-- ===== src/Lef.antt =====
-- lef.c, inc/lef.h and storage.c: the loading of a LEF image from the contents of its file.
pub mod Laws
mod Tests
use animula.Prelude.{
  ℕ, ◌+◌, ◌*◌, ◌%◌, ◌^◌, Bool, true, false, leb, ◌==◌, ◌&&◌, if◌then◌else◌, List, [], ◌∷◌, length,
  take, drop,
}
use animula.Run.{Run, ok, panic, fault, ◌>>=◌}

-- `struct LEF`; the entry of its symbol table is the offset into `body`.
pub record Lef : Type 0 where
  pub sig : List ℕ
  pub ver : List ℕ
  pub msize : ℕ
  pub gsize : ℕ
  pub psize : ℕ
  pub csize : ℕ
  pub entry : ℕ
  pub body : List ℕ
  pub symtab_cnt : ℕ
  pub symtab_entry : ℕ

-- The number of some bytes, the most significant first.
abbrev pub big : ℕ → List ℕ → ℕ
big acc [] = acc
big acc (b ∷ bs) = big (256 * acc + b) bs

-- `os_read` behind the bytes that were read before. At the end of the file it leaves bytes of the
-- buffer uninitialized.
unfoldable pub os_read : ℕ → List ℕ → Run (List ℕ × List ℕ)
os_read n file = if leb n (length file) then ok (take n file, drop n file) else fault

unfoldable pub os_read_u32 : List ℕ → Run (ℕ × List ℕ)
os_read_u32 file = do (bs, rest) ← os_read 4 file; ok (big 0 bs, rest)

-- `LEF_VERIFY`.
abbrev pub lef_verify : List ℕ → Bool
lef_verify (l ∷ e ∷ f ∷ []) = (l == 76) && (e == 69) && (f == 70)
lef_verify sig = false

-- Bytes of the body; behind it C reads other memory.
unfoldable pub body_bytes : (n offset : ℕ) → List ℕ → Run ℕ
body_bytes n offset body =
    if leb (offset + n) (length body) then ok (big 0 (take n (drop offset body))) else fault

abbrev pub lef_get_u16 : ℕ → List ℕ → Run ℕ
lef_get_u16 offset body = body_bytes 2 offset body

abbrev pub lef_entry : ℕ → List ℕ → Run ℕ
lef_entry offset body = body_bytes 4 offset body

-- `LEF_PROG`, `LEF_BODY_SIZE`.
abbrev pub lef_prog : Lef → List ℕ
lef_prog lef = drop (lef.msize + lef.gsize) lef.body

abbrev pub lef_body_size : (msize gsize psize csize : ℕ) → ℕ
lef_body_size msize gsize psize csize = (msize + gsize + psize + csize) % 2 ^ 32

-- The wrong signature ends the program with `exit (-1)`, which is `panic` here.
unfoldable pub load_lef_from_file : List ℕ → Run Lef
load_lef_from_file file = do
  (sig, file) ← os_read 3 file
  if lef_verify sig
      then (do
        (ver, file) ← os_read 3 file
        (msize, file) ← os_read_u32 file
        (gsize, file) ← os_read_u32 file
        (psize, file) ← os_read_u32 file
        (csize, file) ← os_read_u32 file
        (body, file) ← os_read (lef_body_size msize gsize psize csize) file
        sym_cnt ← lef_get_u16 0 body
        symtab_size ← lef_get_u16 2 body
        entry ← lef_entry ((4 + symtab_size) % 2 ^ 16) body
        ok (record {
          sig = sig;
          ver = ver;
          msize = msize;
          gsize = gsize;
          psize = psize;
          csize = csize;
          entry = entry;
          body = body;
          symtab_cnt = sym_cnt;
          symtab_entry = 4;
        }))
      else panic
