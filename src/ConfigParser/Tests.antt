-- ===== src/ConfigParser/Tests.antt =====
-- A line of a configuration file: the theorems about the parser at it.
use usbproxy_legacy.Prelude.{◌≡◌, refl, [], ◌∷◌}
use usbproxy_legacy.ConfigParser.{config_parser, str_strip, parse_line, set}
use usbproxy_legacy.ConfigParser.Line.{parse_line-entry}

-- " ab = c" sets "ab".
parse_line-entry_example :
    parse_line config_parser (32 ∷ 97 ∷ 98 ∷ 32 ∷ 61 ∷ 32 ∷ 99 ∷ [])
    ≡ set config_parser (str_strip (97 ∷ 98 ∷ 32 ∷ [])) (str_strip (32 ∷ 99 ∷ []))
parse_line-entry_example =
    parse_line-entry config_parser (32 ∷ []) 97 (98 ∷ 32 ∷ 61 ∷ 32 ∷ []) 99 [] (97 ∷ 98 ∷ 32 ∷ [])
      (32 ∷ 99 ∷ []) (refl, tt) refl refl refl tt refl (refl, (refl, (refl, tt)))
