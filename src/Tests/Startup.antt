-- ===== src/Tests/Startup.antt =====
-- Runs of the theorems on the configuration and the start-up.
use Prim.Native.String.{String}
use text.Mathlib.Text.{◌==◌}
use chirpstack_gateway_mesh.Common.{
  ℕ, ◌≡◌, refl, ◌↔◌, List, [], ◌∷◌, Option, none, some, All, if◌then◌else◌, arith,
}
use chirpstack_gateway_mesh.Common.Result.{Result, ok, err, panicked, already_set}
use chirpstack_gateway_mesh.Config.{Configuration, CodeRate, default_configuration}
use chirpstack_gateway_mesh.Config.Text
use chirpstack_gateway_mesh.Config.Load.{FileText, substitute, substitute-prefix, load, load_plain}
use chirpstack_gateway_mesh.Setup.{IsTyped, commands_setup, commands_setup_iff}

-- The texts of two bytes.
abbrev parse : String → Option ℕ
parse k = if k == "1" then some 1 else if k == "200" then some 200 else none

abbrev entries : List (String × List (List ℕ))
entries = ("1", (5 ∷ []) ∷ []) ∷ ("200", (6 ∷ []) ∷ []) ∷ []

abbrev conf : Configuration
conf = record default_configuration { commands = record { commands = entries } }

commands_setup_iff_example :
    (((commands_setup parse conf none).0 ≡ ok tt) ↔ All (IsTyped parse) entries)
    × (((commands_setup parse conf none).0 ≡ panicked) ↔ ¬ All (IsTyped parse) entries)
commands_setup_iff_example = commands_setup_iff parse conf refl

deserialize-serialize_example :
    Text.deserialize (Text.serialize CodeRate.cr_li48) ≡ ok CodeRate.cr_li45
deserialize-serialize_example = Text.deserialize-serialize CodeRate.cr_li48

-- `HOST` is "a" and `HOSTN` is "b"; the text is "x$HOSTN".
substitute-prefix_example :
    substitute
      (((72 ∷ 79 ∷ 83 ∷ 84 ∷ []), 97 ∷ []) ∷ ((72 ∷ 79 ∷ 83 ∷ 84 ∷ 78 ∷ []), 98 ∷ []) ∷ [])
      (120 ∷ 36 ∷ 72 ∷ 79 ∷ 83 ∷ 84 ∷ 78 ∷ [])
    ≡ 120 ∷ 97 ∷ 78 ∷ []
substitute-prefix_example =
    substitute-prefix (72 ∷ 79 ∷ 83 ∷ 84 ∷ []) (97 ∷ []) (78 ∷ []) (120 ∷ []) []
      (((72 ∷ 79 ∷ 83 ∷ 84 ∷ 78 ∷ []), 98 ∷ []) ∷ []) ((ground arith), tt) ((ground arith), tt)
      ((ground arith), tt) tt

abbrev read_to_string : String → Result FileText
read_to_string file_name = if file_name == "a" then ok (120 ∷ []) else ok (121 ∷ 122 ∷ [])

abbrev vars : List (FileText × FileText)
vars = (72 ∷ [], 97 ∷ []) ∷ []

load_plain_example :
    (load read_to_string vars (λ text. ok conf) ("a" ∷ "b" ∷ []) none ≡ (ok tt, some conf))
    × (load read_to_string vars (λ text. ok conf) ("a" ∷ "b" ∷ []) (some default_configuration)
        ≡ (err already_set, some default_configuration))
load_plain_example =
    load_plain read_to_string vars (λ text. ok conf) ("a" ∷ "b" ∷ [])
      ((120 ∷ []) ∷ (121 ∷ 122 ∷ []) ∷ []) conf default_configuration refl
      ((ground arith), ((ground arith), ((ground arith), tt))) refl
