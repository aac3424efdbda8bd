-- ===== src/Number/Gcd.antt =====
-- inc/lib.h: `gcd`, `gcd64`.
pub mod Laws
use animula.Prelude.{ℕ, zero, suc, ◌+◌, ◌-◌, ◌%◌, ◌^◌, Bool, ltb, ◌==◌, if◌then◌else◌}
use animula.Prelude.Int.{ℤ, pos, negsuc, abs}
use animula.Run.{Run, ok, fault, ◌>>=◌}
use animula.Object.{s32, word}

-- `while ((uu %= vv) && (vv %= uu)); return uu + vv`. A remainder by 0 is a fault, and so is
-- running out of fuel, which `gcd_loop-IsGcd` rules out.
unfoldable pub gcd_loop : ℕ → ℕ → ℕ → Run ℕ
gcd_loop zero uu vv = fault
gcd_loop (suc fuel) uu vv =
    let uu' = uu % vv in
    let vv' = vv % uu' in
    let rest = gcd_loop fuel uu' vv' in
    if vv == 0
    then fault
    else if uu' == 0
    then ok (uu' + vv)
    else if vv' == 0
    then ok (uu' + vv')
    else rest

-- `gcd64` of two numbers of 64 bits.
unfoldable pub gcd64 : ℤ → ℤ → Run ℕ
gcd64 u v = gcd_loop (abs v + 1) (abs u) (abs v)

-- `abs` of an `int`, undefined at the least one.
unfoldable pub abs_int : ℤ → Run ℕ
abs_int z = if abs z == 2 ^ 31 then fault else ok (abs z)

-- `gcd`, whose parameters are of 32 bits: a wider argument is cut down to them.
unfoldable pub gcd : ℤ → ℤ → Run ℕ
unfolding abs_int
gcd u v = do uu ← abs_int (s32 (word u)); vv ← abs_int (s32 (word v)); gcd_loop (vv + 1) uu vv
