-- ===== src/Errcode/Tests.antt =====
-- The catalogue's theorems at single errors.
use mathlib.Core.List.{Memᴰ}
use go_skeleton.Base.{refl}
use go_skeleton.Base.Int.{pos}
use go_skeleton.Errcode
use go_skeleton.Errcode.{Error, http_status, new_error, catalogue}

abbrev teapot : Error
teapot = record { code = pos 1042; reason = "TEAPOT" }

disabled_listed : Memᴰ Errcode.service_disabled catalogue
disabled_listed = Memᴰ.tail (Memᴰ.tail (Memᴰ.tail (Memᴰ.tail (Memᴰ.tail (Memᴰ.head refl)))))
