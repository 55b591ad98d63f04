-- ===== src/Proxy/Manager/Calls.antt =====
-- The calls that change `ProxyManager`, in any order: crates/proxy/src/lib.rs.
use fabdev.Prelude.{Bool, List, [], ◌∷◌, Text}
use fabdev.Proxy.Settings.{ProxyConnectionSettings, ProxyConnectionInput, Parsers}
use fabdev.Proxy.Manager.{ProxyManager, Bind, stop, start, add_settings, add, remove}
use fabdev.Proxy.Manager.Update.{update, restore_update}

-- Each call with the binds it meets.
pub data Call : Type 0 where
  adding : ProxyConnectionInput → Call
  adding_settings : ProxyConnectionSettings → Call
  starting : Bind → Text → Call
  stopping removing : Text → Call
  updating : Bind → Bind → Text → ProxyConnectionInput → Call
  restoring : Bind → ProxyConnectionSettings → Bool → Call

module _ (parsers : Parsers) where
  unfoldable pub perform : Call → ProxyManager → ProxyManager
  unfolding add add_settings start stop remove update restore_update
  perform (adding input) m = (add parsers input m).0
  perform (adding_settings s) m = (add_settings parsers s m).0
  perform (starting bind id) m = (start parsers bind id m).0
  perform (stopping id) m = (stop id m).0
  perform (removing id) m = (remove parsers id m).0
  perform (updating first second id input) m = (update parsers first second id input m).0
  perform (restoring bind s should_run) m = (restore_update parsers bind bind s should_run m).0

  unfoldable pub run : List Call → ProxyManager → ProxyManager
  unfolding perform
  run [] m = m
  run (c ∷ cs) m = run cs (perform c m)
