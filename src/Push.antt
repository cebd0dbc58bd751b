-- ===== src/Push.antt =====
-- The push of metrics of internal/topsrv/push.go: the requests, the spool and its replay.
mod Tests
pub mod State
pub mod Inventory
pub mod Stamps
pub mod Listing
pub mod Acks
pub mod Backlog
pub mod Fifo
use topsrv.Base.{
  Option, none, some, ◌-◌, take, ◌||◌, length, keep, sort, false, text_lt, ltb, ◌++◌, not, same, [],
  is_empty, ◌∷◌, codes, Bool, if◌then◌else◌, List, ℕ, Text,
}
use topsrv.Push.State.{
  decimal, has_suffix, Pusher, Env, Op, Answer, File, Request, answered, no_answer,
}

abbrev pub push_max_spool_size : ℕ
push_max_spool_size = 100

-- `prefix` on the name, where there is one
abbrev pub file_name : Text → ℕ → Text → Text
file_name prefix ms ext =
    let name : Text = decimal ms ++ (b'.' ∷ ext) in
    if is_empty prefix then name else prefix ++ (b'-' ∷ name)

abbrev pub by_name : File → File → Bool
by_name a b = text_lt a.name b.name

abbrev pub other_than : Text → File → Bool
other_than name f = not (same f.name name)

-- The pattern "*." + ext, on a name.
abbrev pub matches : Text → File → Bool
matches ext f = has_suffix (b'.' ∷ ext) f.name

-- An answer of 400 or more is an error.
abbrev pub accepted : Answer → Bool
accepted no_answer = false
accepted (answered code) = ltb code 400

module _ {S : Type 0} (env : Env) where
  abbrev with_files : Text → List File → Pusher S → Pusher S
  with_files sub files p = record p { files = λ d. if same d sub then files else p.files d }

  -- filepath.Glob of one directory, and sort.Strings
  unfoldable pub glob_sorted : Text → Text → Pusher S → List File
  glob_sorted sub ext p =
      if env.ok (Op.glob sub) then sort by_name (keep (matches ext) (p.files sub)) else []

  -- os.Remove(path), whose error is dropped
  unfoldable pub remove : Op → Text → Text → Pusher S → Pusher S
  remove op sub name p =
      if env.ok op then with_files sub (keep (other_than name) (p.files sub)) p else p

  unfoldable pub drop_files : Text → List File → Pusher S → Pusher S
  drop_files sub [] p = p
  drop_files sub (f ∷ fs) p = drop_files sub fs (remove (Op.drop_oldest f.name) sub f.name p)

  -- A file of the same name is overwritten.
  unfoldable pub write_file : Text → File → Pusher S → Pusher S
  write_file sub f p = with_files sub (keep (other_than f.name) (p.files sub) ++ (f ∷ [])) p

  unfoldable pub trim : Text → List File → Pusher S → Pusher S
  trim sub files p =
      if ltb push_max_spool_size (length files)
      then drop_files sub (take (length files - push_max_spool_size) files) p
      else p

  -- A write that fails is taken to leave no file.
  unfoldable pub spool_file : Text → Text → Text → Text → Pusher S → Pusher S
  spool_file sub prefix ext body p =
      if is_empty p.cfg.spool_dir || not (env.ok (Op.mkdir sub))
      then p
      else if not (env.ok (Op.write (file_name prefix env.now ext)))
      then p
      else (let p' =
            write_file sub (record { name = file_name prefix env.now ext; body = body }) p in
          trim sub (glob_sorted sub ext p') p')

  unfoldable pub spool : Text → Pusher S → Pusher S
  spool body p = spool_file [] [] (codes "gz") body p

  abbrev auth_headers : Pusher S → List (Text × Text)
  auth_headers p =
      (if is_empty p.cfg.token
        then []
        else (codes "Authorization", codes "Bearer " ++ p.cfg.token) ∷ [])
      ++ (if is_empty p.hostname then [] else (codes "X-Hostname", p.hostname) ∷ [])

  -- A POST that carries the headers, and whether it went through.
  unfoldable pub post : Text → List (Text × Text) → Text → Pusher S → Pusher S × Bool
  post url headers body p =
      if env.request_ok url
      then (
        record p {
          requests =
              p.requests
              ++ (record { url = url; headers = headers ++ auth_headers p; body = body } ∷ []);
        },
        accepted (env.answer (length p.requests)),
      )
      else (p, false)

  unfoldable pub send : Text → Pusher S → Pusher S × Bool
  send body p =
      post p.cfg.endpoint
        ((codes "Content-Type", codes "text/plain; charset=utf-8")
          ∷ (codes "Content-Encoding", codes "gzip")
          ∷ [])
        body p

  unfoldable pub post_json : Text → Text → Pusher S → Pusher S × Bool
  post_json url body p = post url ((codes "Content-Type", codes "application/json") ∷ []) body p

  -- The loop of retrySpool.
  unfoldable pub retry_files : List File → Pusher S → Pusher S
  retry_files [] p = p
  retry_files (f ∷ fs) p =
      let (p', went) = send f.body p in
      let skipped = retry_files fs (remove (Op.remove_unreadable f.name) [] f.name p) in
      let next = retry_files fs (remove (Op.remove_sent f.name) [] f.name p') in
      if not (env.ok (Op.read f.name)) then skipped else if went then next else p'

  unfoldable pub retry_spool : Pusher S → Pusher S
  retry_spool p =
      if is_empty p.cfg.spool_dir then p else retry_files (glob_sorted [] (codes "gz") p) p

  unfoldable pub push_metrics : Text → Pusher S → Pusher S
  push_metrics body p = let (p', went) = send body p in if went then p' else spool body p'

  -- What follows a gather, which failed where there is no body.
  unfoldable pub push_gathered : Option Text → Pusher S → Pusher S
  push_gathered none p = p
  push_gathered (some body) p = push_metrics body p

  unfoldable pub flush : Pusher S → Pusher S
  flush p = push_gathered env.gathered (retry_spool p)
