-- ===== src/Syslog/Tests.antt =====
-- Runs of the syslog parser, and each theorem about it at a concrete line.
use loghub.Common.{◌≡◌, refl, true, List, [], ◌∷◌, none, some, Bytes, codes}
use loghub.Syslog.{
  SyslogMsg, TimeLib, parse_pri, SdEnd, ended, refused, panics, structured_data_end,
}
use loghub.Syslog.Line.{parse_syslog}
use loghub.Syslog.Structured.{write_elements, structured_data_end-write, structured_data_end_panics}

abbrev some_time : TimeLib
some_time = record { parse_rfc3339 = λ s. some 7; is_stamp = λ s. true }

rfc_5424 :
    parse_syslog some_time (codes "<34>1 2024-01-02T03:04:05Z fw1 app - ID [a b=\"c\\]\"] hello\n")
    ≡ some (record {
      severity = some 2;
      time = some 7;
      host = codes "fw1";
      app = codes "app";
      body = codes "hello";
    })
unfolding parse_syslog loghub.Syslog.Line.timed loghub.Syslog.Line.message
    loghub.Syslog.Line.nil_value
rfc_5424 = refl

rfc_3164 :
    parse_syslog some_time (codes "<13>Jan  2 03:04:05 fw1 sshd[12]: hello")
    ≡ some (record {
      severity = some 5;
      time = none;
      host = codes "fw1";
      app = codes "sshd";
      body = codes "hello";
    })
unfolding parse_syslog
rfc_3164 = refl

no_host :
    parse_syslog some_time (codes "<13>Jan  2 03:04:05 sshd: a b")
    ≡ some (record {
      severity = some 5;
      time = none;
      host = [];
      app = codes "sshd";
      body = codes "a b";
    })
unfolding parse_syslog
no_host = refl

bad_priority : parse_pri (codes "<192>x") ≡ none
unfolding parse_pri
bad_priority = refl

signed_priority : parse_pri (codes "<+9>x") ≡ some (9, codes "x")
unfolding parse_pri
signed_priority = refl

-- A line that ends behind a backslash in a value.
cut_line : parse_syslog some_time (codes "<34>1 - h a - - [x y=\"z\\") ≡ none
unfolding parse_syslog loghub.Syslog.Line.message
cut_line = refl

abbrev two_params : Bytes × List (Bytes × Bytes)
two_params = (codes "x", (codes "y", codes "\"]") ∷ [])

structured_data_end-write_example :
    structured_data_end (write_elements (two_params ∷ []) (codes " hello")) ≡ ended (codes " hello")
structured_data_end-write_example =
    structured_data_end-write two_params [] (codes "hello") (((refl, tt), ((refl, tt), tt)), tt)

structured_data_end_panics_example : structured_data_end (codes "[x\"z\\") ≡ panics
structured_data_end_panics_example = structured_data_end_panics (codes "x") (codes "z") (refl, tt)
