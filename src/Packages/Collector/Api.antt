-- ===== src/Packages/Collector/Api.antt =====
-- The collector as a provider of the push loop.
use topsrv.Base.{
  sym, ap, true, false, inr, refl, ◌∙◌, inl, none, is_empty, ◌∷◌, All, List, Bool-cases, arith,
  some, map, [], Text, Option, ◌≡◌, ℕ,
}
use topsrv.Packages.Snapshot.{Payload}
use topsrv.Packages.Collector.{Collector, drain, on_inventory_pushed}
use topsrv.Push.State.{Pusher, Env}
use topsrv.Push.Inventory as Inventory
use topsrv.Push.Inventory.{
  InventoryProvider, acknowledge, send_body, send_marshalled, send_one_inventory, send_payloads,
  send_providers, send_inventory,
}

-- `marshal` is json.Marshal of a payload, `now` the time of an acknowledgement.
abbrev pub wire : (Payload → Option Text) → Payload → Inventory.Payload
wire marshal p = record { kind = p.kind; marshalled = marshal p }

abbrev pub inventory_api : (Payload → Option Text) → ℕ → InventoryProvider Collector
inventory_api marshal now = record {
  inventory = λ c. (map (wire marshal) (drain c).0, (drain c).1);
  on_inventory_pushed = some (on_inventory_pushed now);
}

abbrev pub Drained : Collector → Type 0
Drained c = c.pending ≡ []

module _ (marshal : Payload → Option Text) (now : ℕ) where
  module _ (env : Env) where
    send_body-pending :
        (payload : Inventory.Payload) (body : Text) (c : Collector) (p : Pusher Collector)
        → (send_body (inventory_api marshal now) env payload body c p).1.pending ≡ c.pending
    unfolding send_body acknowledge
    send_body-pending payload body c p = ground arith

    send_marshalled-pending :
        (o : Option Text) (payload : Inventory.Payload) (c : Collector) (p : Pusher Collector)
        → (send_marshalled (inventory_api marshal now) env o payload c p).1.pending ≡ c.pending
    unfolding send_marshalled
    send_marshalled-pending none payload c p = refl
    send_marshalled-pending (some body) payload c p = send_body-pending payload body c p

    send_payloads-pending :
        (ps : List Inventory.Payload) (c : Collector) (p : Pusher Collector)
        → (send_payloads (inventory_api marshal now) env ps c p).1.pending ≡ c.pending
    unfolding send_payloads send_one_inventory
    send_payloads-pending [] c p = refl
    send_payloads-pending (x ∷ ps) c p =
        send_payloads-pending ps _ _ ∙ send_marshalled-pending x.marshalled x c p

    send_providers-Drained :
        (cs : List Collector) (p : Pusher Collector)
        → All Drained (send_providers (inventory_api marshal now) env cs p).1
    unfolding send_providers
    send_providers-Drained [] p = tt
    send_providers-Drained (c ∷ cs) p = (
      send_payloads-pending (map (wire marshal) c.pending) (drain c).1 p,
      send_providers-Drained cs _,
    )

    Drained-requests :
        (cs : List Collector) (p : Pusher Collector)
        → All Drained cs
        → (send_providers (inventory_api marshal now) env cs p).0 ≡ p
    unfolding send_providers send_payloads
    Drained-requests [] p h = refl
    Drained-requests (c ∷ cs) p (e, h) = rw e (Drained-requests cs p h)

    idle :
        (p : Pusher Collector)
        → is_empty p.inventory_endpoint ≡ true
        → send_inventory (inventory_api marshal now) env p ≡ p
    unfolding send_inventory
    idle p e = rw e refl

    send_inventory-Drained :
        (p : Pusher Collector)
        → is_empty p.inventory_endpoint ≡ false
        → All Drained (send_inventory (inventory_api marshal now) env p).providers
    unfolding send_inventory
    send_inventory-Drained p e = rw e (send_providers-Drained p.providers p)

    Drained-send :
        (p : Pusher Collector)
        → All Drained p.providers
        → (send_inventory (inventory_api marshal now) env p).requests ≡ p.requests
    unfolding send_inventory
    Drained-send p h = elim (Bool-cases (is_empty p.inventory_endpoint)) [
      | inl e ↦ rw e refl
      | inr e ↦ rw e (ap (λ q. q.requests) (Drained-requests p.providers p h))
    ]

  -- Collectors give each snapshot to one push only: a second push before the next scan makes no
  -- request for them, whether the server took the payloads of the first push or not.
  pub send_inventory_once :
      (env env' : Env) (p : Pusher Collector)
      → (send_inventory
          (inventory_api marshal now)
          env'
          (send_inventory (inventory_api marshal now) env p)).requests
        ≡ (send_inventory (inventory_api marshal now) env p).requests
  send_inventory_once env env' p =
      let q = send_inventory (inventory_api marshal now) env p in
      elim (Bool-cases (is_empty p.inventory_endpoint)) [
        | inl e ↦
            let same_p : q ≡ p = idle env p e in
            ap (λ r. (send_inventory (inventory_api marshal now) env' r).requests) same_p
            ∙ ap (λ r. r.requests) (idle env' p e ∙ sym same_p)
        | inr e ↦ Drained-send env' q (send_inventory-Drained env p e)
      ]
