-- ===== src/Config/Load.antt =====
-- `Configuration::load`. A text is the list of its code points. Reading a file, the environment's
-- variables in the order in which they are walked, and the TOML parser are parameters.
use Prim.Native.String.{String}
use chirpstack_gateway_mesh.Common.{
  ℕ, zero, suc, ◌-◌, ◌≡◌, ◌≢◌, refl, ◌∙◌, ap, Bool, true, false, ◌&&◌, ◌==◌, List, [], ◌∷◌, ◌++◌,
  Option, none, some, length, map, sym, All, All-append, append_assoc, append-nil, arith,
}
use chirpstack_gateway_mesh.Common.Result
use chirpstack_gateway_mesh.Common.Result.{Result, ok, err, already_set}
use chirpstack_gateway_mesh.Config.{Configuration, set}
use chirpstack_gateway_mesh.Runtime.{M, ◌>>=◌, lift}

abbrev pub FileText : Type 0
FileText = List ℕ

abbrev pub dollar : ℕ
dollar = 36

-- `str::starts_with`.
unfoldable pub starts_with : FileText → FileText → Bool
starts_with [] s = true
starts_with (p ∷ ps) [] = false
starts_with (p ∷ ps) (c ∷ cs) = (p == c) && starts_with ps cs

-- `str::replace`, of which the first characters are still to be skipped.
unfoldable pub replace_from : FileText → FileText → ℕ → FileText → FileText
unfolding starts_with
replace_from pattern new skip [] = []
replace_from pattern new (suc skip) (c ∷ cs) = replace_from pattern new skip cs
replace_from pattern new zero (c ∷ cs) = elim (starts_with pattern (c ∷ cs)) [
  | true ↦ new ++ replace_from pattern new (length pattern - 1) cs
  | false ↦ c ∷ replace_from pattern new zero cs
]

unfoldable pub replace : FileText → FileText → FileText → FileText
unfolding replace_from
replace pattern new s = replace_from pattern new zero s

-- `for (k, v) in env::vars() { content = content.replace(&format!("${}", k), &v) }`.
unfoldable pub substitute : List (FileText × FileText) → FileText → FileText
unfolding replace
substitute [] content = content
substitute ((k, v) ∷ vars) content = substitute vars (replace (dollar ∷ k) v content)

module _ (read_to_string : String → Result FileText) where
  -- `for file_name in filenames { content.push_str(&fs::read_to_string(file_name)?) }`.
  unfoldable pub read_all : FileText → List String → Result FileText
  read_all content [] = ok content
  read_all content (file_name ∷ filenames) =
      Result.◌>>=◌ (read_to_string file_name) (λ text. read_all (content ++ text) filenames)

  unfoldable pub load :
      List (FileText × FileText)
      → (FileText → Result Configuration)
      → List String
      → M (Option Configuration) (Unit {0})
  unfolding read_all substitute set
  load vars from_toml filenames = do
    content ← lift (read_all [] filenames)
    conf ← lift (from_toml (substitute vars content))
    set conf

-- No variable is referred to.
abbrev pub IsPlain : FileText → Type 0
IsPlain s = All (λ c. c ≢ dollar) s

replace-plain : (k v s : FileText) → IsPlain s → replace_from (dollar ∷ k) v zero s ≡ s
unfolding replace_from starts_with
replace-plain k v [] h = refl
replace-plain k v (c ∷ cs) h = ground (arith, h.0, replace-plain k v cs h.1)

substitute-plain :
    (vars : List (FileText × FileText)) (s : FileText) → IsPlain s → substitute vars s ≡ s
unfolding substitute replace
substitute-plain [] s h = refl
substitute-plain ((k, v) ∷ vars) s h =
    ap (substitute vars) (replace-plain k v s h) ∙ substitute-plain vars s h

starts_with-append : (p s : FileText) → starts_with p (p ++ s) ≡ true
unfolding starts_with
starts_with-append [] s = refl
starts_with-append (c ∷ p) s = ground (arith, starts_with-append p s)

skipped :
    (pattern v k s : FileText)
    → replace_from pattern v (length k) (k ++ s) ≡ replace_from pattern v zero s
unfolding replace_from
skipped pattern v [] s = refl
skipped pattern v (c ∷ k) s = skipped pattern v k s

length_tail : (n : ℕ) → suc n - 1 ≡ n
length_tail n = omega arith

-- The name is found where it is referred to, and what follows is looked through again.
replaced_here :
    (k v s : FileText)
    → replace_from (dollar ∷ k) v zero (dollar ∷ (k ++ s)) ≡ v ++ replace_from (dollar ∷ k) v zero s
unfolding replace_from starts_with
replaced_here k v s =
    ap
      (λ b. elim b as (λ x. FileText) [
        | true ↦ v ++ replace_from (dollar ∷ k) v (length (dollar ∷ k) - 1) (k ++ s)
        | false ↦ dollar ∷ replace_from (dollar ∷ k) v zero (k ++ s)
      ])
      (starts_with-append k s)
    ∙ ap (λ n. v ++ replace_from (dollar ∷ k) v n (k ++ s)) (length_tail (length k))
    ∙ ap (λ t. v ++ t) (skipped (dollar ∷ k) v k s)

replaced :
    (k v before s : FileText)
    → IsPlain before
    → replace_from (dollar ∷ k) v zero (before ++ dollar ∷ (k ++ s))
      ≡ before ++ (v ++ replace_from (dollar ∷ k) v zero s)
unfolding replace_from starts_with
replaced k v [] s h = replaced_here k v s
replaced k v (c ∷ before) s h = ground (arith, h.0, replaced k v before s h.1)

-- With a variable `k` before all others in the environment, a reference to a name that is `k` and some more
-- is replaced by the value of `k` and the rest of the name, whatever the other variables are: among them
-- the one of that name. The text around, the value and the rest of the name have no dollar sign.
pub substitute-prefix :
    (k v more before after : FileText) (vars : List (FileText × FileText))
    → IsPlain before
    → IsPlain v
    → IsPlain more
    → IsPlain after
    → substitute ((k, v) ∷ vars) (before ++ dollar ∷ ((k ++ more) ++ after))
      ≡ before ++ (v ++ (more ++ after))
unfolding substitute replace
substitute-prefix k v more before after vars plain_before plain_v plain_more plain_after =
    let rest = more ++ after in
    let plain_rest = All-append _ more after plain_more plain_after in
    let once : replace_from (dollar ∷ k) v zero (before ++ dollar ∷ ((k ++ more) ++ after))
        ≡ before ++ (v ++ rest) =
      ap (λ t. replace_from (dollar ∷ k) v zero (before ++ dollar ∷ t)) (append_assoc k more after)
      ∙ replaced k v before rest plain_before
      ∙ ap (λ t. before ++ (v ++ t)) (replace-plain k v rest plain_rest) in
    ap (substitute vars) once
    ∙ substitute-plain vars (before ++ (v ++ rest))
        (All-append _ before (v ++ rest) plain_before (All-append _ v rest plain_v plain_rest))

-- The texts one after the other.
abbrev pub joined : List FileText → FileText
joined [] = []
joined (text ∷ texts) = text ++ joined texts

read_all-joined :
    (read_to_string : String → Result FileText) (content : FileText) (filenames : List String)
    (texts : List FileText)
    → map read_to_string filenames ≡ map ok texts
    → read_all read_to_string content filenames ≡ ok (content ++ joined texts)
unfolding read_all
read_all-joined read_to_string content [] [] e = ap ok (sym (append-nil content))
read_all-joined read_to_string content [] (t ∷ texts) e = absurd (cc e)
read_all-joined read_to_string content (f ∷ filenames) [] e = absurd (cc e)
read_all-joined read_to_string content (f ∷ filenames) (t ∷ texts) e =
    let first : read_to_string f ≡ ok t = cc e in
    let rest : map read_to_string filenames ≡ map ok texts = cc e in
    ap (λ r. Result.◌>>=◌ r (λ t. read_all read_to_string (content ++ t) filenames)) first
    ∙ read_all-joined read_to_string (content ++ t) filenames texts rest
    ∙ ap ok (append_assoc content t (joined texts))

module _ (read_to_string : String → Result FileText) (vars : List (FileText × FileText))
    (from_toml : FileText → Result Configuration) where
  -- Files that can be read and in which no variable is referred to are parsed as one text, in which they
  -- stand one after the other, whatever the environment is. The configuration that the parser makes of it is
  -- stored the first time; a second time fails and leaves the configuration as it is.
  pub load_plain :
      (filenames : List String) (texts : List FileText) (conf old : Configuration)
      → map read_to_string filenames ≡ map ok texts
      → IsPlain (joined texts)
      → from_toml (joined texts) ≡ ok conf
      → (load read_to_string vars from_toml filenames none ≡ (ok tt, some conf))
        × (load read_to_string vars from_toml filenames (some old) ≡ (err already_set, some old))
  unfolding load set lift ◌>>=◌
  load_plain filenames texts conf old reads plain parses =
      let read = read_all-joined read_to_string [] filenames texts reads in
      let parses' = ap from_toml (substitute-plain vars (joined texts) plain) ∙ parses in
      (rw (read, parses') refl, rw (read, parses') refl)
