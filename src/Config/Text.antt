-- ===== src/Config/Text.antt =====
-- How the code rate is written in the configuration file, and read from it.
use Prim.Native.String.{String}
use text.Mathlib.Text.{◌==◌}
use chirpstack_gateway_mesh.Common.{◌≡◌, refl, ◌||◌, if◌then◌else◌}
use chirpstack_gateway_mesh.Common.Result.{Result, ok, err, unexpected_code_rate}
use chirpstack_gateway_mesh.Config.{CodeRate}

unfoldable pub serialize : CodeRate → String
serialize CodeRate.cr45 = "4/5"
serialize CodeRate.cr46 = "4/6"
serialize CodeRate.cr47 = "4/7"
serialize CodeRate.cr48 = "4/8"
serialize CodeRate.cr38 = "3/8"
serialize CodeRate.cr26 = "2/6"
serialize CodeRate.cr14 = "1/4"
serialize CodeRate.cr16 = "1/6"
serialize CodeRate.cr56 = "5/6"
serialize CodeRate.cr_li45 = "4/5LI"
serialize CodeRate.cr_li46 = "4/6LI"
serialize CodeRate.cr_li48 = "4/5LI"

unfoldable pub deserialize : String → Result CodeRate
deserialize s =
    if s == "4/5"
    then ok CodeRate.cr45
    else if s == "4/6" || s == "2/3"
    then ok CodeRate.cr46
    else if s == "4/7"
    then ok CodeRate.cr47
    else if s == "4/8" || s == "2/4" || s == "1/2"
    then ok CodeRate.cr48
    else if s == "3/8"
    then ok CodeRate.cr38
    else if s == "2/6" || s == "1/3"
    then ok CodeRate.cr26
    else if s == "1/4"
    then ok CodeRate.cr14
    else if s == "1/6"
    then ok CodeRate.cr16
    else if s == "5/6"
    then ok CodeRate.cr56
    else if s == "4/5LI"
    then ok CodeRate.cr_li45
    else if s == "4/6LI"
    then ok CodeRate.cr_li46
    else if s == "4/8LI"
    then ok CodeRate.cr_li48
    else err unexpected_code_rate

-- What becomes of a code rate that is written and read.
abbrev pub read_back : CodeRate → CodeRate
read_back CodeRate.cr45 = CodeRate.cr45
read_back CodeRate.cr46 = CodeRate.cr46
read_back CodeRate.cr47 = CodeRate.cr47
read_back CodeRate.cr48 = CodeRate.cr48
read_back CodeRate.cr38 = CodeRate.cr38
read_back CodeRate.cr26 = CodeRate.cr26
read_back CodeRate.cr14 = CodeRate.cr14
read_back CodeRate.cr16 = CodeRate.cr16
read_back CodeRate.cr56 = CodeRate.cr56
read_back CodeRate.cr_li45 = CodeRate.cr_li45
read_back CodeRate.cr_li46 = CodeRate.cr_li46
read_back CodeRate.cr_li48 = CodeRate.cr_li45

-- Every code rate is written as a text that is read: as the same code rate, but for 4/8 with long
-- interleaving, which is read back as 4/5.
pub deserialize-serialize : (c : CodeRate) → deserialize (serialize c) ≡ ok (read_back c)
unfolding deserialize serialize
deserialize-serialize CodeRate.cr45 = refl
deserialize-serialize _ = refl
