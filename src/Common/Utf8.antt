-- ===== src/Common/Utf8.antt =====
-- `str::from_utf8` of the Rust standard library: which byte sequences are UTF-8 (RFC 3629).
-- A `str` is the list of its bytes.
use Prim.Native.Nat.{ℕ, zero, suc}
use mathlib.Core.Bool.{Bool, true, false, ◌&&◌}
use mathlib.Core.List.{List, [], ◌∷◌}
use mathlib.Core.Option.{Option, none, some}
use substrate_node_template.Common.Tests.{leb, if◌then◌else◌}

-- What a first byte announces: how many bytes follow, and the range of the next one.
lead : ℕ → Option (ℕ × ℕ × ℕ)
lead b =
    if leb b 0x7f
    then some (0, 0, 0)
    else if leb b 0xc1
    then none
    else if leb b 0xdf
    then some (1, 0x80, 0xbf)
    else if leb b 0xe0
    then some (2, 0xa0, 0xbf)
    else if leb b 0xec
    then some (2, 0x80, 0xbf)
    else if leb b 0xed
    then some (2, 0x80, 0x9f)
    else if leb b 0xef
    then some (2, 0x80, 0xbf)
    else if leb b 0xf0
    then some (3, 0x90, 0xbf)
    else if leb b 0xf3
    then some (3, 0x80, 0xbf)
    else if leb b 0xf4
    then some (3, 0x80, 0x8f)
    else none

scan_utf8 : ℕ → ℕ → ℕ → List ℕ → Bool
unfolding lead
scan_utf8 zero lo hi [] = true
scan_utf8 (suc k) lo hi [] = false
scan_utf8 zero lo hi (b ∷ bs) = elim (lead b) [
  | none ↦ false
  | some (k, lo', hi') ↦ scan_utf8 k lo' hi' bs
]
scan_utf8 (suc k) lo hi (b ∷ bs) = elim (leb lo b && leb b hi) [
  | true ↦ scan_utf8 k 0x80 0xbf bs
  | false ↦ false
]

unfoldable pub from_utf8 : List ℕ → Option (List ℕ)
unfolding scan_utf8
from_utf8 bytes = if scan_utf8 0 0 0 bytes then some bytes else none
