-- ===== src/Base/Rounding.antt =====
-- Python's `round`: to the nearest integer, halves to the even one.
use Prim.Native.Nat.{ℕ, ◌+◌, ◌*◌, ◌/◌, ◌%◌}
use kasb_o_kar_hoshmand.Base.Tests.{◌==◌, ltb, if◌then◌else◌}

-- `round(n / d)`, for 0 < d
unfoldable pub round_div : ℕ → ℕ → ℕ
round_div n d =
    let q = n / d in
    let r = n % d in
    if ltb (2 * r) d then q else if ltb d (2 * r) then q + 1 else if q % 2 == 0 then q else q + 1
