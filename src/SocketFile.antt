-- ===== src/SocketFile.antt =====
-- src/socket.rs: `SocketPath`, the path of a socket in a temporary directory. The file system and
-- tempfile are parameters.
use xprotocol.Prelude.{String, Bool, Option, none, some, str_append, if◌then◌else◌}

pub record FileSystem : Type 1 where
  pub World : Type 0
  -- makes a directory with this prefix and suffix, whose path it gives; `expect` panics where it
  -- fails, which gives no path
  pub tempdir : String → String → World → Option String × World
  pub join : String → String → String
  pub exists_at : String → World → Bool
  pub remove_file : String → World → World
  -- the end of a `TempDir`: the directory and what is in it
  pub remove_dir : String → World → World

pub record SocketPath : Type 0 where
  pub path : String
  pub temp_dir : Option String

module _ (fs : FileSystem) where
  unfoldable pub placed : Option String × fs.World → Option SocketPath × fs.World
  placed (none, w) = (none, w)
  placed (some dir, w) =
      (some (record { path = fs.join dir "socket.sock"; temp_dir = some dir }), w)

  unfoldable pub new : String → fs.World → Option SocketPath × fs.World
  unfolding placed
  new name w = placed (fs.tempdir name ".sock" w)

  -- `uuid` is a fresh one
  abbrev pub in_dir : String → String → SocketPath → SocketPath
  in_dir uuid dir s = record s { path = fs.join dir (str_append uuid ".sock") }

  unfoldable pub drop_dir : Option String → fs.World → fs.World
  drop_dir none w = w
  drop_dir (some dir) w = fs.remove_dir dir w

  -- `drop`, and then that of the field
  unfoldable pub drop : SocketPath → fs.World → fs.World
  unfolding drop_dir
  drop s w = drop_dir s.temp_dir (if fs.exists_at s.path w then fs.remove_file s.path w else w)
