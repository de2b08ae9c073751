-- ===== src/Net/Url/Tests.antt =====
-- Runs of the decoder.
use esp32emu.Base.{◌≡◌, refl}
use esp32emu.Base.Strings.{codes}
use esp32emu.Net.Url.{url_decode}

decoded : url_decode (codes "a+b%2Fc%zz%4") ≡ codes "a b/c%zz%4"
unfolding url_decode
decoded = refl
