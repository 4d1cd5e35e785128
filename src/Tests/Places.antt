-- ===== src/Tests/Places.antt =====
-- The theorems on addresses, and on the choice of a wallet, at concrete ones.
use Prim.Native.String.{◌++◌ as append}
use findy_agent.Common.{String, true, false, ◌≡◌, refl, none, some, [], ◌∷◌, arith}
use findy_agent.Common.Exec.{ok}
use findy_agent.Didcomm.Fields.{slashed}
use findy_agent.Endp.{
  Addr, address, new_client_addr, ends_with, version2_endp_suffix, is_did, byte_length,
  matches_class, is_base58,
}
use findy_agent.Wallet.{Handle, Mgr, Indy, find_oldest}
use findy_agent.Wallet.Oldest.{IsEvicted, find_oldest_lem}
use findy_agent.Endp.RoundTrip.{IsFull, path_parts, new_client_addr-address, is_did_any_last}

abbrev demo_addr : Addr
demo_addr = record {
  id = 258;
  service = "a2a";
  pl_rcvr = "agency";
  msg_rcvr = "agent";
  conn_id = "conn";
  edge_token = "edge";
  base_path = "http://host";
  ver_key = "key";
  v2_api = false;
}

demo_addr-IsFull : IsFull demo_addr
demo_addr-IsFull = record {
  parts = ground arith;
  has_msg_rcvr = refl;
  has_conn_id = refl;
  has_edge_token = refl;
}

new_client_addr-address_example :
    new_client_addr
      (λ s.
        some (record { scheme = "http"; host = "host"; path = slashed "" (path_parts demo_addr) }))
      (address demo_addr)
    ≡ ok (record demo_addr { id = 0; ver_key = ""; v2_api = ends_with "a2a" version2_endp_suffix })
new_client_addr-address_example =
    new_client_addr-address
      (λ s.
        some (record { scheme = "http"; host = "host"; path = slashed "" (path_parts demo_addr) }))
      demo_addr "http" "host" demo_addr-IsFull refl refl

is_did_any_last_example : is_did (append "111111111111111111111" "/") ≡ true
unfolding byte_length matches_class is_base58
is_did_any_last_example = is_did_any_last "111111111111111111111" "/" refl refl refl

abbrev first_wallet : Handle
first_wallet = record { ts = 7; h = 1; cfg = record { unique_id = "a"; wants_backup = false } }

abbrev second_wallet : Handle
second_wallet = record { ts = 3; h = 2; cfg = record { unique_id = "b"; wants_backup = false } }

abbrev demo_mgr : Mgr
demo_mgr = record {
  opened = ("a", 0) ∷ ("b", 1) ∷ [];
  handles = first_wallet ∷ second_wallet ∷ [];
  clock = 9;
  sent = [];
}

abbrev demo_indy : Indy
demo_indy = record { open_wallet = λ m cfg. ok 5; close_wallet = λ m h. none; elapse = λ m. 1 }

find_oldest_example :
    (name : String) × (find_oldest demo_indy demo_mgr ≡ (ok name, record demo_mgr { clock = 10 }))
    × IsEvicted demo_mgr.opened demo_mgr.handles 7 name
find_oldest_example =
    find_oldest_lem demo_indy demo_mgr 0 0 "a" first_wallet
      ((first_wallet, refl, omega arith), ((second_wallet, refl, omega arith), tt)) refl refl
