-- ===== src/Protocol/Issue/Preview.antt =====
-- std/issuecredential/propose.go: what a preview keeps on its way through the stored values.
use findy_agent.Common.{
  String, ◌≡◌, refl, sym, ap, ◌∙◌, Option, none, some, List, [], ◌∷◌, map, if◌then◌else◌, true,
  false, Bool, ◌==◌,
}
use findy_agent.Common.Table.{Table, get, put, string_eq, get-put}
use findy_agent.Common.Exec.{ok}
use findy_agent.Pltype.{issue_credential_credential_preview}
use findy_agent.Prot.World.{World}
use findy_agent.Std.{CredAttribute, PreviewCredential}
use findy_agent.Protocol.{Codec, CredDefAttr}
use findy_agent.Protocol.Issue.{
  coded_values_from, preview_to_coded_values, new_preview_credential_raw, raw_attribute,
}

-- The value of the last attribute of this name.
abbrev pub last_value : Option String → List CredAttribute → String → Option String
last_value found [] name = found
last_value found (a ∷ attrs) name =
    last_value (if a.name == name then some a.value else found) attrs name

-- The value of the first attribute of this name.
abbrev pub value_of : List CredAttribute → String → Option String
value_of [] name = none
value_of (a ∷ attrs) name = if a.name == name then some a.value else value_of attrs name

abbrev raw_of : Option CredDefAttr → Option String
raw_of none = none
raw_of (some a) = some a.raw

raw_of_if :
    (b : Bool) (a : CredDefAttr) (found : Option CredDefAttr)
    → raw_of (if b then some a else found) ≡ (if b then some a.raw else raw_of found)
raw_of_if true a found = refl
raw_of_if false a found = refl

module _ (codec : Codec) where
  coded_value :
      (m : Table String CredDefAttr) (attrs : List CredAttribute) (name : String)
      → raw_of (get (coded_values_from codec m attrs) name)
        ≡ last_value (raw_of (get m name)) attrs name
  unfolding coded_values_from
  coded_value m [] name = refl
  coded_value m (a ∷ attrs) name =
      let v : CredDefAttr = record { raw = a.value; encoded = codec.encode_value a.value } in
      coded_value (put m a.name v) attrs name
      ∙ ap (λ found. last_value found attrs name)
          (ap raw_of (get-put m a.name name v) ∙ raw_of_if (a.name == name) v (get m name))

  value_of_raw :
      (m : Table String CredDefAttr) (name : String)
      → value_of (map (raw_attribute codec) m) name ≡ raw_of (get m name)
  unfolding get
  value_of_raw [] name = refl
  value_of_raw ((j, a) ∷ m) name =
      rw (value_of_raw m name) (sym (raw_of_if (j == name) a (get m name)))

  -- When the JSON text of the coded values is read back as a map, and `range` goes through the entries that
  -- were written, in any order, the preview that is made of it gives each name the value of the last attribute of that name in the
  -- preview that it was written from, and no name that is not there.
  pub preview_values_kept :
      (p : PreviewCredential) (m : Table String CredDefAttr) (w : World)
      → codec.read_values (preview_to_coded_values codec p) ≡ ok m
      → ((name : String)
          → get (codec.range_order w m) name ≡ get (coded_values_from codec [] p.attributes) name)
      → (q : PreviewCredential) × (new_preview_credential_raw codec
            (preview_to_coded_values codec p)
            w
          ≡ ok q)
        × ((name : String) → value_of q.attributes name ≡ last_value none p.attributes name)
  unfolding new_preview_credential_raw get
  preview_values_kept p m w r same = (
    record {
      type = issue_credential_credential_preview;
      attributes = map (raw_attribute codec) (codec.range_order w m);
    },
    rw (new_preview_credential_raw, r) refl,
    λ name.
        value_of_raw (codec.range_order w m) name
        ∙ ap raw_of (same name)
        ∙ coded_value [] p.attributes name,
  )
