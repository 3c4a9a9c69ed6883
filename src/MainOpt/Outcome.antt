-- ===== src/MainOpt/Outcome.antt =====
-- How `parse_opt` ends.
use forward_epics_to_kafka.Base.{◌<◌, ◌≡◌, ◌≢◌, true, ◌↔◌, ok, Result, ◌⊎◌, is_empty}
use forward_epics_to_kafka.MainOpt.{
  MainOpt, OptLibrary, Parsed, parsed, ParseOptRet, success, version_requested, parse_streams_json,
}

-- One of the six levels.
abbrev pub Levelled : MainOpt → Type 0
Levelled o = o.log_level < 6

module _ (lib : OptLibrary) where
  -- What a result of `parse_opt` tells, by how `App.parse` ended.
  abbrev pub Told : ParseOptRet → MainOpt → Result Parsed → Type 0
  Told ret o end =
      Levelled o
      × ((ret ≡ version_requested) ↔ (o.print_version ≡ true))
      × ((ret ≢ success)
          ⊎ (end ≡ ok parsed)
            × ((is_empty o.streams_file ≡ true)
                ⊎ (parse_streams_json lib o.streams_file ≡ ok o.streams_info)))
