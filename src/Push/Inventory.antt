-- ===== src/Push/Inventory.antt =====
-- The pushes of query metadata and of inventories of internal/topsrv/push.go.
use topsrv.Base.{
  ◌++◌, ℕ, ltb, some, none, [], length, eqb, ◌||◌, flatten, is_empty, Option, codes, ◌∷◌, List,
  if◌then◌else◌, Text,
}
use topsrv.Push.State.{Config, Pusher, Env}
use topsrv.Push.{flush, Text, List, if◌then◌else◌, post_json, spool_file, retry_spool, push_metrics}

-- A payload of packages.Payload, as json.Marshal reads it; no text where it fails.
pub record Payload : Type 0 where
  pub kind : Text
  pub marshalled : Option Text

-- InventoryProvider, and InventoryAckReceiver where the provider implements it.
pub record InventoryProvider (S : Type 0) : Type 0 where
  pub inventory : S → List Payload × S
  pub on_inventory_pushed : Option (Text → S → S)

-- `marshal` is json.Marshal of the queries of all meta providers.
unfoldable pub send_meta : {S : Type 0} → Env → (List Text → Option Text) → Pusher S → Pusher S
send_meta env marshal p =
    let queries = flatten p.meta_providers in
    if is_empty p.meta_endpoint || eqb (length queries) 0
    then p
    else elim (marshal queries) [ none ↦ p | some body ↦ (post_json env p.meta_endpoint body p).0 ]

module _ {S : Type 0} (api : InventoryProvider S) (env : Env) where
  unfoldable pub acknowledge : Text → S → S
  acknowledge kind s = elim api.on_inventory_pushed [ none ↦ s | some ack ↦ ack kind s ]

  unfoldable pub send_body : Payload → Text → S → Pusher S → Pusher S × S
  send_body payload body s p =
      let (p', went) = post_json env p.inventory_endpoint body p in
      if went
      then (p', acknowledge payload.kind s)
      else (spool_file env (codes "inventory") payload.kind (codes "json") body p', s)

  unfoldable pub send_marshalled : Option Text → Payload → S → Pusher S → Pusher S × S
  send_marshalled none payload s p = (p, s)
  send_marshalled (some body) payload s p = send_body payload body s p

  unfoldable pub send_one_inventory : Payload → S → Pusher S → Pusher S × S
  send_one_inventory payload s p = send_marshalled payload.marshalled payload s p

  unfoldable pub send_payloads : List Payload → S → Pusher S → Pusher S × S
  send_payloads [] s p = (p, s)
  send_payloads (payload ∷ rest) s p =
      let (p', s') = send_one_inventory payload s p in send_payloads rest s' p'

  unfoldable pub send_providers : List S → Pusher S → Pusher S × List S
  send_providers [] p = (p, [])
  send_providers (s ∷ rest) p =
      let (payloads, s') = api.inventory s in
      let (p1, s1) = send_payloads payloads s' p in
      let (p2, others) = send_providers rest p1 in (p2, s1 ∷ others)

  unfoldable pub send_inventory : Pusher S → Pusher S
  send_inventory p =
      if is_empty p.inventory_endpoint
      then p
      else (let (p', providers) = send_providers p.providers p in
          record p' { providers = providers })

  unfoldable pub push_with : (List Text → Option Text) → Option Text → Pusher S → Pusher S
  push_with marshal none p = p
  push_with marshal (some body) p = send_inventory (send_meta env marshal (push_metrics env body p))

  unfoldable pub push : (List Text → Option Text) → Pusher S → Pusher S
  push marshal p = push_with marshal env.gathered (retry_spool env p)

-- The requests are those of one tick; env answers them by their number.
unfoldable pub start_tick : {S : Type 0} → Pusher S → Pusher S
start_tick p = record p { requests = [] }

module _ {S : Type 0} (api : InventoryProvider S) (marshal : List Text → Option Text) where
  unfoldable pub ticks : List Env → Pusher S → Pusher S
  ticks [] p = p
  ticks (env ∷ envs) p = ticks envs (push api env marshal (start_tick p))

  -- Run: the spool first, a push for each tick, and Flush when the context is done.
  unfoldable pub run : Env → List Env → Env → Pusher S → Pusher S
  run first envs last p = flush last (start_tick (ticks envs (retry_spool first (start_tick p))))

-- `parse`, `with_path` and `print` are url.Parse, the assignment of u.Path, and u.String.
module _ {U : Type 0} (parse : Text → Option U) (with_path : Text → U → U) (print : U → Text) where
  abbrev derive_endpoint : Text → Text → Text
  derive_endpoint push_endpoint path = elim (parse push_endpoint) [
    | none ↦ []
    | some u ↦ print (with_path path u)
  ]

  abbrev new_pusher : {S : Type 0} → Config → Option Text → Pusher S
  new_pusher cfg hostname = record {
    cfg = cfg;
    hostname = elim hostname [ none ↦ [] | some name ↦ name ];
    meta_endpoint = derive_endpoint cfg.endpoint (codes "/v1/meta");
    inventory_endpoint = derive_endpoint cfg.endpoint (codes "/v1/inventory");
    providers = [];
    meta_providers = [];
    files = λ d. [];
    requests = [];
  }

-- In milliseconds; `duration` is time.ParseDuration, with no value where it fails or is negative.
abbrev interval_of : (Text → Option ℕ) → Config → ℕ
interval_of duration cfg = elim (duration cfg.interval) [
  | none ↦ 30000
  | some d ↦ if ltb d 1000 then 30000 else d
]

abbrev add_inventory_provider : {S : Type 0} → S → Pusher S → Pusher S
add_inventory_provider s p = record p { providers = p.providers ++ (s ∷ []) }

abbrev add_meta_provider : {S : Type 0} → List Text → Pusher S → Pusher S
add_meta_provider m p = record p { meta_providers = p.meta_providers ++ (m ∷ []) }
