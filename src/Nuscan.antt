-- ===== src/Nuscan.antt =====
-- lasagna/nuscan: scanning a number off the front of a string.
pub mod RoundTrip
mod Tests
use perp.Common.{ℕ, ◌+◌, ◌-◌, ◌*◌, ◌%◌, Bytes, [], ◌∷◌, ltb, if◌then◌else◌}
use perp.Upak.{u32_mod}

-- What is stored through `result`, and the string from the pointer that is returned. The end of
-- the string is its nul, which is no digit. `base` is 10 in `nuscan_uint32`, 8 in the octal one.
pub scan_from : ℕ → ℕ → Bytes → ℕ × Bytes
scan_from base r [] = (r, [])
scan_from base r (c ∷ s) =
    let d = (c + u32_mod - b'0') % u32_mod in
    let n = (r * base + d) % u32_mod in
    if ltb d base then if ltb n r then (r, c ∷ s) else scan_from base n s else (r, c ∷ s)

unfoldable pub nuscan_uint32 : Bytes → ℕ × Bytes
unfolding scan_from
nuscan_uint32 s = scan_from 10 0 s

unfoldable pub nuscan_uint32o : Bytes → ℕ × Bytes
unfolding scan_from
nuscan_uint32o s = scan_from 8 0 s
