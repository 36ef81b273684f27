-- ===== src/Prelude/Ip.antt =====
-- `net.IP` of Go: a slice of 4 or 16 bytes, or of another length where it is no address.
use mathlib.Core.Path.{◌≡◌}
use mathlib.Core.Bool.{false, ◌&&◌}
use mathlib.Core.List.{[], ◌∷◌, ◌++◌}
use native.Mathlib.Omega.{arith}
use go_bt.Prelude.Tests.{◌==◌, if◌then◌else◌}
use go_bt.Prelude.Lists.{length, length-append, length-drop, take, drop}
use go_bt.Prelude.Words.{Bytes}
use go_bt.Prelude.Keys.{bytes_beq}

-- The first twelve bytes of an IPv4 address written as an IPv6 address.
abbrev pub v4_prefix : Bytes
v4_prefix = 0 ∷ 0 ∷ 0 ∷ 0 ∷ 0 ∷ 0 ∷ 0 ∷ 0 ∷ 0 ∷ 0 ∷ 255 ∷ 255 ∷ []

-- `ip.To4()`, with nil as the empty slice.
unfoldable pub to4 : Bytes → Bytes
to4 ip =
    if length ip == 4
    then ip
    else if length ip == 16 && bytes_beq (take 12 ip) v4_prefix
    then drop 12 ip
    else []

-- `ip.To16()`.
unfoldable pub to16 : Bytes → Bytes
to16 ip = if length ip == 4 then v4_prefix ++ ip else if length ip == 16 then ip else []

-- `To4` gives four bytes or none, and `To16` sixteen or none.
pub length-to4 : (ip : Bytes) → ((length (to4 ip) == 0) ≡ false) → length (to4 ip) ≡ 4
unfolding to4
length-to4 ip h = ground (arith, length-drop 12 ip, length-append v4_prefix ip)

pub length-to16 : (ip : Bytes) → ((length (to16 ip) == 0) ≡ false) → length (to16 ip) ≡ 16
unfolding to16
length-to16 ip h = ground (arith, length-drop 12 ip, length-append v4_prefix ip)
