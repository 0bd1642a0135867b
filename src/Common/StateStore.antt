-- ===== src/Common/StateStore.antt =====
-- mios/common/statestore.py: a JSON file of operational state, as a dict once it is decoded. A save
-- is atomic: the file holds the old or the new dict.
use invest.Base.{[]}
use invest.Base.Dict.{Dict}
use invest.Common.Errors.{Result, ok, err, mios_error}

-- `unreadable` is a file that is no JSON, or no JSON object.
pub data StateFile (V : Type 0) : Type 0 where
  missing : StateFile V
  unreadable : StateFile V
  stored : Dict V → StateFile V

module _ {V : Type 0} where
  unfoldable pub load : StateFile V → Result (Dict V)
  load missing = ok []
  load unreadable = err (mios_error "corrupt or unreadable state file")
  load (stored d) = ok d

  unfoldable pub save : Dict V → StateFile V
  save d = stored d
