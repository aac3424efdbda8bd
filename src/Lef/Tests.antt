-- ===== src/Lef/Tests.antt =====
-- The theorem on images at a concrete image.
use animula.Prelude.{[], ◌∷◌, ◌≡◌, refl, take, arith}
use animula.Run.{ok}
use animula.Lef.{lef_prog, load_lef_from_file}
use animula.Lef.Laws.{Image, image_bytes, loaded, load-image}

-- One symbol, one byte of globals and a program that halts.
abbrev small : Image
small = record {
  ver = 0 ∷ 4 ∷ 0 ∷ [];
  cnt = 1;
  symbols = 102 ∷ 111 ∷ 111 ∷ 0 ∷ [];
  entry = 0;
  memory = [];
  globals = 224 ∷ [];
  program = 255 ∷ [];
  clean = [];
}

load-image_example :
    (load_lef_from_file (image_bytes small (10 ∷ [])) ≡ ok (loaded small))
    × (take 1 (lef_prog (loaded small)) ≡ 255 ∷ [])
load-image_example =
    load-image small (10 ∷ [])
      (record { version = refl; symbols_fit = omega arith; body_fits = omega arith })
