-- ===== src/Tests/Codec.antt =====
-- Runs of src/core/hash.ts and src/core/publication.ts.
use cross_tab_worker_databus.Base.{◌≡◌, refl, none, some, ◌++◌, nat_has_eq}
use cross_tab_worker_databus.Base.JsString.{Text, text}
use cross_tab_worker_databus.Codec.Hash.{start_lanes, mix, avalanche, create_opaque_key}
use cross_tab_worker_databus.Codec.HashLaws.{Spells, create_opaque_key-Spells}
use cross_tab_worker_databus.Codec.Publication.{
  object, number, Publication, parse_data_bus_publication,
}
use cross_tab_worker_databus.Codec.PublicationLaws.{
  metadata_fields, flat_fields, envelope, parse_data_bus_publication-envelope,
}

create_opaque_key-Spells_example :
    let l = avalanche (mix (text "a") (start_lanes (text "a"))) in
    (a : Text) × (b : Text) × (c : Text) × (d : Text) × (create_opaque_key (text "a")
      ≡ a ++ b ++ c ++ d)
    × Spells l.h1 a
    × Spells l.h2 b
    × Spells l.h3 c
    × Spells l.h4 d
create_opaque_key-Spells_example = create_opaque_key-Spells (text "a")

abbrev sent : Publication
sent = record {
  topic = text "t";
  payload = number (some 7);
  message_id = some (text "m");
  timestamp = some 5;
}

parse_data_bus_publication-envelope_example :
    (parse_data_bus_publication (envelope (flat_fields sent (text "m") 5)) none ≡ some sent)
    × (parse_data_bus_publication (object (flat_fields sent (text "m") 5)) none ≡ some sent)
    × (parse_data_bus_publication (object (metadata_fields sent (text "m") 5)) (some (text "t"))
        ≡ some sent)
parse_data_bus_publication-envelope_example =
    parse_data_bus_publication-envelope (text "t") (text "m") (number (some 7)) 5 none refl refl
