-- ===== src/Share/State/Calls.antt =====
-- The calls of `LanShareState`, in any order: crates/agent/src/main.rs.
use fabdev.Prelude.{ℕ, Option, List, [], ◌∷◌, Text, Result}
use fabdev.Sites.Site.{Site}
use fabdev.Share.Server.{SocketAddr}
use fabdev.Share.State.{LanShareState, start, stop, stop_site, update_site, sync_sites}

pub data Call : Type 0 where
  starting : Site → ℕ → Result Text SocketAddr → Result Text Text → Call
  stopping : Option Text → Call
  stopping_site : ℕ → Option Text → Call
  updating : Site → Call
  syncing : List Site → Option Text → Call

unfoldable pub perform : Call → LanShareState → LanShareState
unfolding start stop stop_site update_site sync_sites
perform (starting site port listening lan) st = (start site port listening lan st).0
perform (stopping ended) st = (stop ended st).0
perform (stopping_site id ended) st = (stop_site id ended st).0
perform (updating site) st = (update_site site st).0
perform (syncing sites ended) st = (sync_sites sites ended st).0

unfoldable pub run : List Call → LanShareState → LanShareState
unfolding perform
run [] st = st
run (c ∷ cs) st = run cs (perform c st)
