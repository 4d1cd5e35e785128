-- ===== src/Endp/RoundTrip.antt =====
-- Writing and reading addresses, and the test for a DID (agent/endp/endpoint.go).
use Prim.Native.String.{◌++◌ as append}
use text.Mathlib.TextLemmas.{nil-append, cons-append, append_assoc}
use findy_agent.Common.{
  ℕ, zero, suc, ◌+◌, Char, code, String, true, false, ◌≡◌, refl, ap, sym, ◌∙◌, Option, some, List,
  [], ◌∷◌, All, Without, arith, ◌==◌,
}
use findy_agent.Common.Exec.{ok}
use findy_agent.Didcomm.Fields.{slashed, split-slashed}
use findy_agent.Endp.{
  Addr, Url, address, new_client_addr, set_parts, set_part, trim_slash, ends_with,
  version2_endp_suffix, is_did, byte_length, char_bytes, matches_class,
}

trim_slash-append :
    (s : String) (c : Char) (t : String)
    → trim_slash (append s (String.◌∷◌ c t)) ≡ append s (trim_slash (String.◌∷◌ c t))
unfolding trim_slash
trim_slash-append String.[] c t =
    rw (nil-append (String.◌∷◌ c t), nil-append (trim_slash (String.◌∷◌ c t))) refl
trim_slash-append (String.◌∷◌ d String.[]) c t =
    rw
      (
        cons-append d "" (String.◌∷◌ c t),
        nil-append (String.◌∷◌ c t),
        cons-append d "" (trim_slash (String.◌∷◌ c t)),
        nil-append (trim_slash (String.◌∷◌ c t)),
      )
      refl
trim_slash-append (String.◌∷◌ d (String.◌∷◌ f s)) c t =
    rw
      (
        cons-append d (String.◌∷◌ f s) (String.◌∷◌ c t),
        cons-append f s (String.◌∷◌ c t),
        cons-append d (String.◌∷◌ f s) (trim_slash (String.◌∷◌ c t)),
      )
      (ap (String.◌∷◌ d) (
        ap trim_slash (sym (cons-append f s (String.◌∷◌ c t)))
        ∙ trim_slash-append (String.◌∷◌ f s) c t))

trim_slash_none : (p : String) → Without b'/' p → trim_slash p ≡ p
unfolding trim_slash
trim_slash_none String.[] h = refl
trim_slash_none (String.◌∷◌ c String.[]) h = rw h.0 refl
trim_slash_none (String.◌∷◌ c (String.◌∷◌ d s)) h =
    ap (String.◌∷◌ c) (trim_slash_none (String.◌∷◌ d s) h.1)

trim_slash_end :
    (s t : String)
    → (t == "") ≡ false
    → Without b'/' t
    → trim_slash (append s (String.◌∷◌ "/" t)) ≡ append s (String.◌∷◌ "/" t)
unfolding trim_slash
trim_slash_end s String.[] n w = absurd (ground arith)
trim_slash_end s (String.◌∷◌ d t) n w =
    trim_slash-append s "/" (String.◌∷◌ d t)
    ∙ ap (λ x. append s (String.◌∷◌ "/" x)) (trim_slash_none (String.◌∷◌ d t) w)

abbrev pub path_parts : Addr → List String
path_parts e = e.service ∷ e.pl_rcvr ∷ e.msg_rcvr ∷ e.conn_id ∷ e.edge_token ∷ []

-- No part of the address has a slash, and the optional ones are there.
pub record IsFull (e : Addr) : Type 0 where
  pub parts : All (Without b'/') (path_parts e)
  pub has_msg_rcvr : (e.msg_rcvr == "") ≡ false
  pub has_conn_id : (e.conn_id == "") ≡ false
  pub has_edge_token : (e.edge_token == "") ≡ false

slash_first : (s : String) → append "/" s ≡ String.◌∷◌ "/" s
slash_first s = cons-append "/" "" s ∙ ap (String.◌∷◌ "/") (nil-append s)

join_parts :
    (b s p m c t : String)
    → append
        (append
          (append (append b (append "/" (append s (append "/" p)))) (String.◌∷◌ "/" m))
          (String.◌∷◌ "/" c))
        (String.◌∷◌ "/" t)
      ≡ append b (slashed "" (s ∷ p ∷ m ∷ c ∷ t ∷ []))
join_parts b s p m c t = simp (append_assoc, slash_first, cons-append, nil-append)

address-slashed : (e : Addr) → IsFull e → address e ≡ append e.base_path (slashed "" (path_parts e))
unfolding address
address-slashed e f =
    let base = append e.base_path (append "/" (append e.service (append "/" e.pl_rcvr))) in
    let s = append (append base (String.◌∷◌ "/" e.msg_rcvr)) (String.◌∷◌ "/" e.conn_id) in
    let w = f.parts.1.1.1.1.0 in
    rw (address, f.has_msg_rcvr, f.has_conn_id, f.has_edge_token)
      (trim_slash_end s e.edge_token f.has_edge_token w
        ∙ join_parts e.base_path e.service e.pl_rcvr e.msg_rcvr e.conn_id e.edge_token)

-- An address whose service, payload receiver, message receiver, connection id and edge token have no slash,
-- whose last three are not empty, and whose base is the scheme and host, is written out, and the URL is parsed
-- into that base and the path: what a client reads has the same base, service, receivers, connection id and
-- edge token, no id and no key, which are not written, and the version flag that the end of the service
-- name gives.
pub new_client_addr-address :
    (parse : String → Option Url) (e : Addr) (scheme host : String)
    → IsFull e
    → e.base_path ≡ append scheme (append "://" host)
    → parse (append e.base_path (slashed "" (path_parts e)))
      ≡ some (record { scheme = scheme; host = host; path = slashed "" (path_parts e) })
    → new_client_addr parse (address e)
      ≡ ok (record e { id = 0; ver_key = ""; v2_api = ends_with e.service version2_endp_suffix })
unfolding new_client_addr set_parts set_part
new_client_addr-address parse e scheme host f b p =
    let none_empty : Without b'/' "" = tt in
    rw
      (
        address-slashed e f,
        new_client_addr,
        p,
        split-slashed "" (path_parts e) (none_empty, f.parts),
        sym b,
      )
      refl

byte_length-append_one :
    (s : String) (c : Char)
    → byte_length (append s (String.◌∷◌ c "")) ≡ byte_length s + char_bytes (code c)
unfolding byte_length
byte_length-append_one String.[] c = rw (nil-append (String.◌∷◌ c "")) (omega arith)
byte_length-append_one (String.◌∷◌ d s) c =
    rw (cons-append d s (String.◌∷◌ c "")) (omega (arith, byte_length-append_one s c))

matches_class-append :
    (n : ℕ) (s t : String) → matches_class n s ≡ true → matches_class n (append s t) ≡ true
unfolding matches_class
matches_class-append zero s t h = refl
matches_class-append (suc n) String.[] t h = absurd (ground arith)
matches_class-append (suc n) (String.◌∷◌ c s) t h =
    rw (cons-append c s t) (ground (arith, matches_class-append n s t))

-- The regular expression has no end: after 21 good characters any one-byte character makes a DID.
pub is_did_any_last :
    (s : String) (c : Char)
    → byte_length s ≡ 21
    → matches_class 21 s ≡ true
    → char_bytes (code c) ≡ 1
    → is_did (append s (String.◌∷◌ c "")) ≡ true
unfolding is_did
is_did_any_last s c l m b =
    ground (arith, byte_length-append_one s c, matches_class-append 21 s (String.◌∷◌ c "") m)
