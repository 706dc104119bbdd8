-- ===== src/Config/Loading.antt =====
-- src/config.rs: reading back what was written.
use xprotocol.Prelude.{arith, ◌≡◌, refl, String}
use xprotocol.Error.{IoResult, io_ok, io_err}
use xprotocol.Config.{
  Config, ConfigError, loaded, serialize_error, map_err, Formats, to_toml, from_toml, from_file,
}

map_err-loaded :
    {A : Type 0} (g : String → ConfigError) (x : IoResult A) (a : A)
    → map_err g x ≡ loaded a
    → x ≡ io_ok a
map_err-loaded g (io_ok b) a h = ground (arith, h)
map_err-loaded g (io_err e) a h = cc

-- A configuration that is written as TOML to a file, by libraries that parse what they print, is
-- what `from_file` reads there.
pub from_file-to_toml :
    {F64 : Type 0} (f : Formats F64) (c : Config F64) (path text : String)
    → ((d : Config F64) (t : String) → f.print_toml d ≡ io_ok t → f.parse_toml t ≡ io_ok d)
    → to_toml f c ≡ loaded text
    → f.read_to_string path ≡ io_ok text
    → from_file f path ≡ loaded c
unfolding to_toml from_file from_toml
from_file-to_toml f c path text parses written read =
    rw read (rw (parses c text (map_err-loaded serialize_error (f.print_toml c) text written)) refl)
