-- ===== src/DiskCollector.antt =====
-- internal/collector/disk.go: the usage of the mounted disks. A mount point is a list of runes.
pub mod Names
use nadi_agent.Prelude.{
  ℕ, Bool, true, false, ◌&&◌, ◌||◌, not, Option, none, some, List, [], ◌∷◌, ◌++◌, Bytes, codes,
  bytes_eq, leb, ◌==◌, map, if◌then◌else◌,
}
use nadi_agent.Collector.{Metric}
use nadi_agent.Strings.{has_prefix, fields_func}

abbrev pub any_eq : Bytes → List Bytes → Bool
any_eq s [] = false
any_eq s (t ∷ ts) = bytes_eq s t || any_eq s ts

abbrev pub virtual_fs_types : List Bytes
virtual_fs_types =
    codes "devfs"
    ∷ codes "devtmpfs"
    ∷ codes "proc"
    ∷ codes "sysfs"
    ∷ codes "tmpfs"
    ∷ codes "devpts"
    ∷ codes "cgroup"
    ∷ codes "cgroup2"
    ∷ codes "mqueue"
    ∷ codes "shm"
    ∷ codes "autofs"
    ∷ codes "overlay"
    ∷ codes "ramfs"
    ∷ codes "securityfs"
    ∷ codes "debugfs"
    ∷ codes "tracefs"
    ∷ codes "fusectl"
    ∷ codes "configfs"
    ∷ codes "hugetlbfs"
    ∷ codes "pstore"
    ∷ codes "binfmt_misc"
    ∷ []

abbrev pub virtual_mount_prefixes : List Bytes
virtual_mount_prefixes = codes "/dev" ∷ codes "/proc" ∷ codes "/sys" ∷ codes "/System/Volumes" ∷ []

unfoldable pub below_any : Bytes → List Bytes → Bool
unfolding has_prefix
below_any mountpoint [] = false
below_any mountpoint (prefix ∷ prefixes) =
    (bytes_eq mountpoint prefix || has_prefix mountpoint (prefix ++ codes "/"))
    || below_any mountpoint prefixes

unfoldable pub should_report : Bytes → Bytes → Bool
unfolding below_any
should_report mountpoint fstype =
    if any_eq fstype virtual_fs_types
    then false
    else not (below_any mountpoint virtual_mount_prefixes)

abbrev pub slash : ℕ
slash = 47

unfoldable pub is_tag_char : ℕ → Bool
is_tag_char r = leb b'a' r && leb r b'z' || leb b'0' r && leb r b'9' || r == b'_'

unfoldable pub sanitize_part : Bytes → Bytes
unfolding is_tag_char
sanitize_part [] = []
sanitize_part (r ∷ part) = (if is_tag_char r then r else b'_') ∷ sanitize_part part

-- strings.Join with "_"
unfoldable pub join : List Bytes → Bytes
join [] = []
join (p ∷ []) = p
join (p ∷ q ∷ ps) = p ++ b'_' ∷ join (q ∷ ps)

abbrev pub join_parts : List Bytes → Bytes
join_parts [] = codes "root"
join_parts (p ∷ ps) = join (map sanitize_part (p ∷ ps))

-- `lower` is unicode.ToLower of a rune.
unfoldable pub sanitize : (ℕ → ℕ) → Bytes → Bytes
unfolding fields_func sanitize_part join
sanitize lower mountpoint = join_parts (fields_func (λ r. r == slash) (map lower mountpoint))

-- A partition, with the result of asking for its usage (`none` is an error).
pub record Partition {ℓ} (F : Type ℓ) : Type ℓ where
  pub mountpoint : Bytes
  pub fstype : Bytes
  pub used_percent : Option F

abbrev pub usage_name : (ℕ → ℕ) → Bytes → Bytes
usage_name lower mountpoint = codes "disk.usage_percent." ++ sanitize lower mountpoint

module _ {ℓ} {F : Type ℓ} (lower : ℕ → ℕ) where
  abbrev pub usage_metric : Partition F → Option F → List (Metric F)
  usage_metric p none = []
  usage_metric p (some used) =
      record { name = usage_name lower p.mountpoint; value = used; unit = codes "%" } ∷ []

  -- The loop of Collect over the partitions.
  unfoldable pub usage : List (Partition F) → List (Metric F)
  unfolding sanitize should_report
  usage [] = []
  usage (p ∷ ps) =
      let rest = usage ps in
      if not (should_report p.mountpoint p.fstype)
      then rest
      else usage_metric p p.used_percent ++ rest

  -- Collect; `none` is the error of listing the partitions.
  abbrev pub collect_usage : Option (List (Partition F)) → Option (List (Metric F))
  collect_usage none = none
  collect_usage (some ps) = some (usage ps)
