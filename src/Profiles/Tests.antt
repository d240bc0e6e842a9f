-- ===== src/Profiles/Tests.antt =====
-- Profiles of aegs_config.py at concrete lists.
use aegs_global.Prelude.{none, true, false, List, [], ◌∷◌}
use aegs_global.Profiles.{Profile, add_profile, delete_profile}
use aegs_global.Profiles.Laws.{IsSelected}
use aegs_global.Profiles.Load.{load}
use aegs_global.Profiles.Reach.{Reached, first_start, call, adds, deletes, Reached-IsSelected}

abbrev first : Profile
first = record {
  name = 65 ∷ [];
  server_ip = 1 ∷ [];
  port = 50001;
  port_count = 8;
  token = [];
  key_id = [];
  mimicry = true;
  split_tunnel = true;
  mode = [];
  is_active = true;
  assigned_ip = [];
  dns = [];
  bypass_domains = [];
  notes = [];
}

abbrev second : Profile
second = record first { name = 66 ∷ []; is_active = false }

abbrev both : List Profile
both = first ∷ second ∷ []

-- A first start, a profile more, and the first one deleted.
later : List Profile
later = delete_profile 0 (add_profile second (load none).0)

later_Reached : Reached later
unfolding later
later_Reached =
    call (add_profile second (load none).0) later
      (call (load none).0 (add_profile second (load none).0) first_start (adds second)) (deletes 0)

Reached-IsSelected_example : IsSelected later
Reached-IsSelected_example = Reached-IsSelected later later_Reached
