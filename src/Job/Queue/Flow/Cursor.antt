-- ===== src/Job/Queue/Flow/Cursor.antt =====
-- src/job/memory.rs: reading a flow parent's children page by page.
use Prim.Native.String.{String}
use lane.Job.{Job}
use text.Mathlib.Text.{◌==◌ as str_eq}
use lane.Job.Queue.Kept.Sound.{Sound}
