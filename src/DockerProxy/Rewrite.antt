-- ===== src/DockerProxy/Rewrite.antt =====
-- `rewrite_create_body`: the mounts of a container creation. The JSON library is the argument.
use solon.Base.TextEq.{str_eq_iff}
use solon.Base.{
  ◌≡◌, refl, ap, ◌∙◌, inl, inr, Bool, true, false, ◌||◌, Option, none, some, List, [], ◌∷◌, ◌++◌,
  map, arith, if◌then◌else◌, Bool-cases, any,
}
use mathlib.Core.Option
use solon.Base.{◌>>=◌}
use solon.Base.Text.{Bytes, codes, str_eq, mem_str}
use solon.DockerProxy.Path.{translate_host_path, rewrite_bind}

-- What the code calls of serde_json: `from_slice`, `to_vec`, and on values `get`, the write to an
-- existing key of an object, `is_object` (as `as_object_mut`), and the views as array and as text.
pub record Json : Type 1 where
  pub Value : Type 0
  pub from_slice : Bytes → Option Value
  pub to_vec : Value → Option Bytes
  pub get : Bytes → Value → Option Value
  pub set : Bytes → Value → Value → Value
  pub is_object : Value → Bool
  pub as_array : Value → Option (List Value)
  pub of_array : List Value → Value
  pub as_str : Value → Option Bytes
  pub of_str : Bytes → Value

-- the drives to share, and if something was changed
pub record Found : Type 0 where
  pub drives : List Bytes
  pub changed : Bool

-- `if !drives.contains(&drive) { drives.push(drive) }`, `changed = true`
unfoldable pub note_drive : Bytes → Found → Found
unfolding mem_str
note_drive drive f = record {
  drives = if mem_str drive f.drives then f.drives else f.drives ++ (drive ∷ []);
  changed = true;
}

or_assoc : (a b c : Bool) → (a || b || c) ≡ (a || (b || c))
or_assoc a b c = ground arith

mem_str-last :
    (x d : Bytes) (l : List Bytes) → mem_str x (l ++ (d ∷ [])) ≡ (str_eq x d || mem_str x l)
unfolding mem_str any
mem_str-last x d [] = refl
mem_str-last x d (k ∷ l) = rw (mem_str-last x d l) (ground arith)

module _ (json : Json) where
  -- one string of `Binds`: the value that takes its place
  unfoldable pub new_bind : json.Value → Option (Bytes × json.Value)
  unfolding rewrite_bind
  new_bind v = json.as_str v >>= λ s. Option.map (λ r. (r.0, json.of_str r.1)) (rewrite_bind s)

  is_bind : Option Bytes → Bool
  unfolding str_eq
  is_bind none = false
  is_bind (some t) = str_eq t (codes "bind")

  -- one entry of `Mounts`
  unfoldable pub new_mount : json.Value → Option (Bytes × json.Value)
  unfolding is_bind translate_host_path
  new_mount m =
      if is_bind (json.get (codes "Type") m >>= json.as_str)
      then ((json.get (codes "Source") m >>= json.as_str) >>= (λ src.
          Option.map (λ r. (r.0, json.set (codes "Source") m (json.of_str r.1)))
            (translate_host_path src)))
      else none

  abbrev pub replaced : Option (Bytes × json.Value) → json.Value → json.Value
  replaced none v = v
  replaced (some r) v = r.1

  abbrev pub noted : Option (Bytes × json.Value) → Found → Found
  noted none f = f
  noted (some r) f = note_drive r.0 f

  -- the loop over an array, each element with what takes its place
  unfoldable pub rewrite_all :
      (json.Value → Option (Bytes × json.Value)) → List json.Value → Found → List json.Value × Found
  unfolding note_drive
  rewrite_all new [] f = ([], f)
  rewrite_all new (v ∷ vs) f =
      let (vs', f') = rewrite_all new vs (noted (new v) f) in (replaced (new v) v ∷ vs', f')

  with_array :
      (json.Value → Option (Bytes × json.Value))
      → Bytes
      → json.Value
      → Option (List json.Value)
      → Found
      → json.Value × Found
  unfolding rewrite_all
  with_array new key hc none f = (hc, f)
  with_array new key hc (some vs) f =
      let (vs', f') = rewrite_all new vs f in (json.set key hc (json.of_array vs'), f')

  -- the array under one key of the host configuration
  unfoldable pub rewrite_key :
      (json.Value → Option (Bytes × json.Value)) → Bytes → json.Value → Found → json.Value × Found
  unfolding with_array
  rewrite_key new key hc f = with_array new key hc (json.get key hc >>= json.as_array) f

  unfoldable pub rewrite_host_config : json.Value → json.Value × Found
  unfolding rewrite_key new_bind new_mount
  rewrite_host_config hc =
      let (hc, f) =
        rewrite_key new_bind (codes "Binds") hc (record { drives = []; changed = false }) in
      rewrite_key new_mount (codes "Mounts") hc f

  abbrev object_of : json.Value → Option json.Value
  object_of v = if json.is_object v then some v else none

  written : Bytes → Found → Option Bytes → Bytes × List Bytes
  written body f none = (body, [])
  written body f (some out) = (out, f.drives)

  rewritten_value : Bytes → json.Value → Option json.Value → Bytes × List Bytes
  unfolding rewrite_host_config written
  rewritten_value body v none = (body, [])
  rewritten_value body v (some hc) =
      let (hc', f) = rewrite_host_config hc in
      if f.changed
      then written body f (json.to_vec (json.set (codes "HostConfig") v hc'))
      else (body, [])

  parsed_value : Bytes → Option json.Value → Bytes × List Bytes
  unfolding rewritten_value
  parsed_value body none = (body, [])
  parsed_value body (some v) =
      rewritten_value body v (json.get (codes "HostConfig") v >>= object_of)

  unfoldable pub rewrite_create_body : Bytes → Bytes × List Bytes
  unfolding parsed_value
  rewrite_create_body body = parsed_value body (json.from_slice body)

  abbrev pub is_some : Option (Bytes × json.Value) → Bool
  is_some none = false
  is_some (some _) = true

  abbrev pub is_on : Bytes → Option (Bytes × json.Value) → Bool
  is_on drive none = false
  is_on drive (some r) = str_eq drive r.0

  mem_str-note :
      (drive d : Bytes) (f : Found)
      → mem_str drive (note_drive d f).drives ≡ (str_eq drive d || mem_str drive f.drives)
  unfolding note_drive
  mem_str-note drive d f = elim (Bool-cases (mem_str d f.drives)) [
    | inl h ↦
        rw h
          (ground (arith, h, str_eq_iff drive d, λ (e : drive ≡ d). ap (λ k. mem_str k f.drives) e))
    | inr h ↦ rw h (mem_str-last drive d f.drives)
  ]

  noted-drives :
      (drive : Bytes) (o : Option (Bytes × json.Value)) (f : Found)
      → mem_str drive (noted o f).drives ≡ (mem_str drive f.drives || is_on drive o)
  noted-drives drive none f = ground arith
  noted-drives drive (some r) f = rw (mem_str-note drive r.0 f) (ground arith)

  noted-changed :
      (o : Option (Bytes × json.Value)) (f : Found) → (noted o f).changed ≡ (f.changed || is_some o)
  unfolding note_drive
  noted-changed none f = ground arith
  noted-changed (some r) f = ground arith

  -- In an array every element keeps its place: those with a Windows path are replaced and the others
  -- stay. The drives found are those known before and those of the replaced elements, and the
  -- array counts as changed when it did before or an element was replaced.
  pub rewrite_all_lem :
      (new : json.Value → Option (Bytes × json.Value)) (vs : List json.Value) (f : Found)
      (drive : Bytes)
      → ((rewrite_all new vs f).0 ≡ map (λ v. replaced (new v) v) vs)
        × (mem_str drive (rewrite_all new vs f).1.drives
            ≡ (mem_str drive f.drives || any (λ v. is_on drive (new v)) vs))
        × ((rewrite_all new vs f).1.changed ≡ (f.changed || any (λ v. is_some (new v)) vs))
  unfolding rewrite_all any
  rewrite_all_lem new [] f drive = (refl, ground arith, ground arith)
  rewrite_all_lem new (v ∷ vs) f drive =
      let rest = rewrite_all_lem new vs (noted (new v) f) drive in
      (
        ap (λ l. replaced (new v) v ∷ l) rest.0,
        rest.1
            ∙ ap (λ b. b || any (λ x. is_on drive (new x)) vs) (noted-drives drive (new v) f)
            ∙ or_assoc (mem_str drive f.drives) (is_on drive (new v))
                (any (λ x. is_on drive (new x)) vs),
        rest.2
            ∙ ap (λ b. b || any (λ x. is_some (new x)) vs) (noted-changed (new v) f)
            ∙ or_assoc f.changed (is_some (new v)) (any (λ x. is_some (new x)) vs),
      )
