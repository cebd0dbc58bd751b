-- ===== src/Push/Fifo/Frame.antt =====
-- The pushes of metadata and inventories leave the settings and the metrics' files alone.
use topsrv.Base.{
  none, some, flatten, not, eqb, inr, refl, ◌||◌, length, ◌∷◌, is_empty, codes, ltb, same, Option,
  [], inl, Bool-cases, Option-cases, ◌≡◌, Text, List, ◌∙◌,
}
use topsrv.Push.State.{Pusher, Env, Op, File}
use topsrv.Push.{post, post_json, spool_file, remove, drop_files, trim, write_file, with_files}
use topsrv.Push.Inventory.{
  InventoryProvider, Payload, send_body, send_one_inventory, send_marshalled, send_payloads,
  send_providers, send_inventory, send_meta,
}

-- What may differ is the inventory's files, the requests and the providers.
pub record Framed {S : Type 0} (p q : Pusher S) : Type 0 where
  pub cfg : q.cfg ≡ p.cfg
  pub files : q.files [] ≡ p.files []

abbrev inventory : Text
inventory = codes "inventory"

module _ {S : Type 0} (env : Env) where
  Framed-refl : (p : Pusher S) → Framed p p
  Framed-refl p = record { cfg = refl; files = refl }

  pub Framed-trans : (p q r : Pusher S) → Framed p q → Framed q r → Framed p r
  Framed-trans p q r h k = record { cfg = k.cfg ∙ h.cfg; files = k.files ∙ h.files }

  with_files-Framed : (fs : List File) (p : Pusher S) → Framed p (with_files env inventory fs p)
  with_files-Framed fs p = unfold same in record { cfg = refl; files = refl }

  remove-Framed : (op : Op) (name : Text) (p : Pusher S) → Framed p (remove env op inventory name p)
  unfolding remove
  remove-Framed op name p = elim (Bool-cases (env.ok op)) [
    | inl e ↦ rw e (with_files-Framed _ p)
    | inr e ↦ rw e (Framed-refl p)
  ]

  drop_files-Framed : (fs : List File) (p : Pusher S) → Framed p (drop_files env inventory fs p)
  unfolding drop_files
  drop_files-Framed [] p = Framed-refl p
  drop_files-Framed (f ∷ fs) p =
      Framed-trans p _ _ (remove-Framed (Op.drop_oldest f.name) f.name p) (drop_files-Framed fs _)

  trim-Framed : (fs : List File) (p : Pusher S) → Framed p (trim env inventory fs p)
  unfolding trim
  trim-Framed fs p = elim (Bool-cases (ltb 100 (length fs))) [
    | inl e ↦ rw e (drop_files-Framed _ p)
    | inr e ↦ rw e (Framed-refl p)
  ]

  spool_file-Framed :
      (prefix ext body : Text) (p : Pusher S)
      → Framed p (spool_file env inventory prefix ext body p)
  unfolding spool_file write_file
  spool_file-Framed prefix ext body p =
      elim (Bool-cases (is_empty p.cfg.spool_dir || not (env.ok (Op.mkdir inventory)))) [
        | inl e ↦ rw e (Framed-refl p)
        | inr e ↦
            rw e (elim (Bool-cases (env.ok (Op.write (topsrv.Push.file_name prefix env.now ext)))) [
              | inl w ↦ rw w (Framed-trans p _ _ (with_files-Framed _ p) (trim-Framed _ _))
              | inr w ↦ rw w (Framed-refl p)
            ])
      ]

  post_json-Framed : (url body : Text) (p : Pusher S) → Framed p (post_json env url body p).0
  unfolding post_json post
  post_json-Framed url body p = elim (Bool-cases (env.request_ok url)) [
    | inl e ↦ rw e (record { cfg = refl; files = refl })
    | inr e ↦ rw e (Framed-refl p)
  ]

  pub send_meta-Framed :
      (marshal : List Text → Option Text) (p : Pusher S) → Framed p (send_meta env marshal p)
  unfolding send_meta
  send_meta-Framed marshal p =
      elim (Bool-cases (is_empty p.meta_endpoint || eqb (length (flatten p.meta_providers)) 0)) [
        | inl e ↦ rw e (Framed-refl p)
        | inr e ↦ rw e (elim (Option-cases (marshal (flatten p.meta_providers))) [
          | inl none_ ↦ rw none_ (Framed-refl p)
          | inr (body, b) ↦ rw b (post_json-Framed p.meta_endpoint body p)
        ])
      ]

  module _ (api : InventoryProvider S) where
    send_body-Framed :
        (payload : Payload) (body : Text) (s : S) (p : Pusher S)
        → Framed p (send_body api env payload body s p).0
    unfolding send_body
    send_body-Framed payload body s p =
        let h = post_json-Framed p.inventory_endpoint body p in
        elim (Bool-cases (post_json env p.inventory_endpoint body p).1) [
          | inl e ↦ rw e h
          | inr e ↦
              rw e (Framed-trans p _ _ h (spool_file-Framed payload.kind (codes "json") body _))
        ]

    send_marshalled-Framed :
        (o : Option Text) (payload : Payload) (s : S) (p : Pusher S)
        → Framed p (send_marshalled api env o payload s p).0
    unfolding send_marshalled
    send_marshalled-Framed none payload s p = Framed-refl p
    send_marshalled-Framed (some body) payload s p = send_body-Framed payload body s p

    send_payloads-Framed :
        (ps : List Payload) (s : S) (p : Pusher S) → Framed p (send_payloads api env ps s p).0
    unfolding send_payloads send_one_inventory
    send_payloads-Framed [] s p = Framed-refl p
    send_payloads-Framed (payload ∷ ps) s p =
        Framed-trans p _ _ (send_marshalled-Framed payload.marshalled payload s p)
          (send_payloads-Framed ps _ _)

    send_providers-Framed : (ss : List S) (p : Pusher S) → Framed p (send_providers api env ss p).0
    unfolding send_providers
    send_providers-Framed [] p = Framed-refl p
    send_providers-Framed (s ∷ ss) p =
        Framed-trans p _ _ (send_payloads-Framed (api.inventory s).0 (api.inventory s).1 p)
          (send_providers-Framed ss _)

    pub send_inventory-Framed : (p : Pusher S) → Framed p (send_inventory api env p)
    unfolding send_inventory
    send_inventory-Framed p = elim (Bool-cases (is_empty p.inventory_endpoint)) [
      | inl e ↦ rw e (Framed-refl p)
      | inr e ↦
          rw e
            (let h = send_providers-Framed p.providers p in record { cfg = h.cfg; files = h.files })
    ]
