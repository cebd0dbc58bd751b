-- ===== src/Push/Backlog.antt =====
-- The files of SpoolDir/inventory: the push loop writes them and reads none of them.
use topsrv.Base.{◌≡◌}
use topsrv.Push.State.{Pusher}
use topsrv.Push.{post_json}
use topsrv.Push.Acks.{inventory}

abbrev pub Untouched : {S : Type 0} → Pusher S → Pusher S → Type 0
Untouched p q = q.files inventory ≡ p.files inventory
