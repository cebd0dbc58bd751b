-- ===== src/Push/Acks.antt =====
-- What becomes of one inventory payload.
use topsrv.Base.{
  sym, subst, some, ◌∙◌, ◌⊎◌, Bool, length-keep-le, refl, length-sort, [], inr, arith, ◌∷◌, ◌++◌,
  same, inl, ltb, Bool-cases, ◌≤◌, true, keep, false, ◌&&◌, codes, length, List, is_empty, ◌≡◌,
  Text, ℕ,
}
use topsrv.Push.State.{Pusher, Env, Op, File}
use topsrv.Push.{
  post, post_json, spool_file, write_file, trim, file_name, glob_sorted, accepted, other_than,
  matches, by_name, with_files,
}
use topsrv.Push.Inventory.{
  send_marshalled, Payload, send_one_inventory, send_body, InventoryProvider, acknowledge,
}

abbrev pub inventory : Text
inventory = codes "inventory"

-- The file of a payload that was not taken, beside the files of other names.
abbrev pub queued : {S : Type 0} → Env → Text → Text → Pusher S → List File
queued env kind body p =
    let name = file_name kind env.now (codes "json") in
    keep (other_than name) (p.files inventory) ++ (record { name = name; body = body } ∷ [])

abbrev pub taken : {S : Type 0} → Env → Pusher S → Bool
taken env p = env.request_ok p.inventory_endpoint && accepted (env.answer (length p.requests))

-- The state of the provider and the files, after a payload that was taken or not.
abbrev pub Settled :
    {S : Type 0} → InventoryProvider S → Env → Text → Text → S → S → Pusher S → Pusher S → Type 0
Settled api env kind body s s' p q =
    ((taken env p ≡ true) × (s' ≡ acknowledge api env kind s) × (q.files ≡ p.files))
    ⊎ ((taken env p ≡ false) × (s' ≡ s) × (q.files inventory ≡ queued env kind body p))

module _ {S : Type 0} (env : Env) where
  pub went_lem :
      (url body : Text) (p : Pusher S)
      → (post_json env url body p).1
        ≡ (env.request_ok url && accepted (env.answer (length p.requests)))
  unfolding post_json post
  went_lem url body p = elim (Bool-cases (env.request_ok url)) [
    | inl e ↦ rw e refl
    | inr e ↦ rw e refl
  ]

  pub post_json-files :
      (url body : Text) (p : Pusher S) → (post_json env url body p).0.files ≡ p.files
  unfolding post_json post
  post_json-files url body p = elim (Bool-cases (env.request_ok url)) [
    | inl e ↦ rw e refl
    | inr e ↦ rw e refl
  ]

  post_json-cfg : (url body : Text) (p : Pusher S) → (post_json env url body p).0.cfg ≡ p.cfg
  unfolding post_json post
  post_json-cfg url body p = elim (Bool-cases (env.request_ok url)) [
    | inl e ↦ rw e refl
    | inr e ↦ rw e refl
  ]

  length-glob_sorted :
      (sub ext : Text) (p : Pusher S) (n : ℕ)
      → length (p.files sub) ≤ n
      → length (glob_sorted env sub ext p) ≤ n
  unfolding glob_sorted
  length-glob_sorted sub ext p n h = elim (Bool-cases (env.ok (Op.glob sub))) [
    | inl e ↦ rw e (
        omega (
          arith,
          length-sort by_name (keep (matches ext) (p.files sub)),
          length-keep-le (matches ext) (p.files sub),
          h,
        ))
    | inr e ↦ rw e (omega arith)
  ]

  trim_fits :
      (sub : Text) (files : List File) (p : Pusher S)
      → length files ≤ 100
      → trim env sub files p ≡ p
  unfolding trim
  trim_fits sub files p h = let e : ltb 100 (length files) ≡ false = ground arith in rw e refl

  spool_file-stored :
      (kind body : Text) (p : Pusher S)
      → is_empty p.cfg.spool_dir ≡ false
      → ((op : Op) → env.ok op ≡ true)
      → length (queued env kind body p) ≤ 100
      → (spool_file env inventory kind (codes "json") body p).files inventory
        ≡ queued env kind body p
  unfolding spool_file write_file
  spool_file-stored kind body p dir ok room =
      let q = with_files env inventory (queued env kind body p) p in
      let e : length (glob_sorted env inventory (codes "json") q) ≤ 100 =
        length-glob_sorted inventory (codes "json") q 100 (unfold same in room) in
      rw (dir, ok (Op.mkdir inventory), ok (Op.write (file_name kind env.now (codes "json"))))
        (rw (trim_fits inventory (glob_sorted env inventory (codes "json") q) q e)
          (unfold same in refl))

module _ {S : Type 0} (api : InventoryProvider S) (env : Env) where
  send_body-Settled :
      (payload : Payload) (body : Text) (s : S) (p : Pusher S)
      → is_empty p.cfg.spool_dir ≡ false
      → ((op : Op) → env.ok op ≡ true)
      → length (queued env payload.kind body p) ≤ 100
      → Settled api env payload.kind body s
          (send_body api env payload body s p).1
          p
          (send_body api env payload body s p).0
  unfolding send_body
  send_body-Settled payload body s p dir ok room =
      let url = p.inventory_endpoint in
      let p' = (post_json env url body p).0 in
      let files : p'.files ≡ p.files = post_json-files env url body p in
      let room' : length (queued env payload.kind body p') ≤ 100 = rw files room in
      let dir' : is_empty p'.cfg.spool_dir ≡ false = rw (post_json-cfg env url body p) dir in
      elim (Bool-cases (taken env p)) [
        | inl e ↦ rw (went_lem env url body p, e) (inl (refl, refl, files))
        | inr e ↦
            rw (went_lem env url body p, e)
              (inr (
                refl,
                refl,
                spool_file-stored env payload.kind body p' dir' ok room' ∙ rw files refl,
              ))
      ]

  -- An inventory payload that the server took is acknowledged to its provider, and nothing is stored.
  -- One that it did not take is not acknowledged, and its file joins those of the inventory
  -- directory. This is where the payload has a body, a spool directory is set, all system calls work
  -- and the directory has room for the file.
  pub send_one_inventory-Settled :
      (payload : Payload) (body : Text) (s : S) (p : Pusher S)
      → payload.marshalled ≡ some body
      → is_empty p.cfg.spool_dir ≡ false
      → ((op : Op) → env.ok op ≡ true)
      → length (queued env payload.kind body p) ≤ 100
      → Settled api env payload.kind body s
          (send_one_inventory api env payload s p).1
          p
          (send_one_inventory api env payload s p).0
  unfolding send_one_inventory
  send_one_inventory-Settled payload body s p m dir ok room =
      subst
        (λ o.
          Settled api env payload.kind body s (send_marshalled api env o payload s p).1 p
            (send_marshalled api env o payload s p).0)
        (sym m) (unfold send_marshalled in send_body-Settled payload body s p dir ok room)
