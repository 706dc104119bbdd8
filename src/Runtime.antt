-- ===== src/Runtime.antt =====
-- src/runtime.rs: which runtime runs a future. tokio's builder is a parameter, and so is the number of
-- processors; a panic is an outcome.
use xprotocol.Prelude.{ℕ, ◌≡◌, refl, String, Bool, true, Option, none, some}
use xprotocol.Error.{IoResult, io_ok, io_err}

pub data RuntimeType : Type 0 where
  single_thread multi_thread_work_stealing multi_thread_no_work_stealing : RuntimeType

-- `#[default]`
abbrev pub default_type : RuntimeType
default_type = single_thread

abbrev pub recommended : RuntimeType
recommended = multi_thread_no_work_stealing

pub record ProtocolRuntime : Type 0 where
  pub runtime_type : RuntimeType
  pub threads : Option ℕ

abbrev pub new : ProtocolRuntime
new = record { runtime_type = default_type; threads = none }

abbrev pub with_type : RuntimeType → ProtocolRuntime → ProtocolRuntime
with_type t r = record r { runtime_type = t }

abbrev pub with_threads : ℕ → ProtocolRuntime → ProtocolRuntime
with_threads n r = record r { threads = some n }

-- `unwrap_or_else(num_cpus::get)`
abbrev pub thread_count : ℕ → Option ℕ → ℕ
thread_count cpus none = cpus
thread_count cpus (some n) = n

pub data Outcome (A : Type 0) : Type 0 where
  gives : A → Outcome A
  panics : String → Outcome A

-- tokio's runtimes. `inside` says whether the thread already runs a task of a runtime: there
-- `block_on` panics, as tokio documents.
pub record Tokio : Type 1 where
  pub Builder : Type 0
  pub Runtime : Type 0
  pub Future : Type 0
  pub Output : Type 0
  pub new_current_thread : Builder
  pub new_multi_thread : Builder
  -- a panic where the number is 0
  pub worker_threads : ℕ → Builder → Outcome Builder
  pub enable_all : Builder → Builder
  pub build : Builder → IoResult Runtime
  pub block_on : Bool → Runtime → Future → Outcome Output
  pub block_on_inside :
      (r : Runtime) (f : Future) → (text : String) × (block_on true r f ≡ panics text)

module _ (t : Tokio) where
  -- `expect(text)`
  unfoldable pub expected : String → IoResult t.Runtime → Outcome t.Runtime
  expected text (io_ok r) = gives r
  expected text (io_err e) = panics text

  unfoldable pub build_with : String → Outcome t.Builder → Outcome t.Runtime
  unfolding expected
  build_with text (gives b) = expected text (t.build (t.enable_all b))
  build_with text (panics other) = panics other

  unfoldable pub create_runtime : ℕ → RuntimeType → Option ℕ → Outcome t.Runtime
  unfolding build_with
  create_runtime cpus single_thread threads =
      build_with "Failed to build single-threaded runtime" (gives t.new_current_thread)
  create_runtime cpus multi_thread_work_stealing threads =
      build_with "Failed to build multi-threaded runtime" (gives t.new_multi_thread)
  create_runtime cpus multi_thread_no_work_stealing threads =
      build_with "Failed to build multi-threaded runtime"
        (t.worker_threads (thread_count cpus threads) t.new_multi_thread)

  unfoldable pub blocked : Bool → t.Future → Outcome t.Runtime → Outcome t.Output
  blocked inside f (gives r) = t.block_on inside r f
  blocked inside f (panics text) = panics text

  -- the `match` of `run`
  unfoldable pub run_type : Bool → ℕ → RuntimeType → Option ℕ → t.Future → Outcome t.Output
  unfolding build_with blocked
  run_type inside cpus single_thread threads f =
      blocked inside f
        (build_with "Failed to build single-threaded runtime" (gives t.new_current_thread))
  run_type inside cpus multi_thread_work_stealing threads f =
      blocked inside f
        (build_with "Failed to build multi-threaded runtime" (gives t.new_multi_thread))
  run_type inside cpus multi_thread_no_work_stealing threads f = blocked inside f (
      build_with "Failed to build multi-threaded no-work-stealing runtime"
        (t.worker_threads (thread_count cpus threads) t.new_multi_thread))

  unfoldable pub run : Bool → ℕ → ProtocolRuntime → t.Future → Outcome t.Output
  unfolding run_type
  run inside cpus r f = run_type inside cpus r.runtime_type r.threads f

  -- the body of `run_async`, in the task that polls it
  unfoldable pub run_async : Bool → ℕ → ProtocolRuntime → t.Future → Outcome t.Output
  unfolding run
  run_async inside cpus r f = run inside cpus r f

  built :
      (text other : String) (b : Outcome t.Builder) (rt : t.Runtime)
      → build_with text b ≡ gives rt
      → build_with other b ≡ gives rt
  unfolding build_with expected
  built text other (panics p) rt e = absurd (cc)
  built text other (gives b) rt e = built_from (t.build (t.enable_all b)) e
    where
      built_from :
          (x : IoResult t.Runtime) → expected text x ≡ gives rt → expected other x ≡ gives rt
      built_from (io_ok r) k = k
      built_from (io_err m) k = absurd (cc)

  runs_on :
      (inside : Bool) (cpus : ℕ) (kind : RuntimeType) (threads : Option ℕ) (f : t.Future)
      (rt : t.Runtime)
      → create_runtime cpus kind threads ≡ gives rt
      → run_type inside cpus kind threads f ≡ t.block_on inside rt f
  unfolding create_runtime run_type blocked
  runs_on inside cpus single_thread threads f rt e = rw e refl
  runs_on inside cpus multi_thread_work_stealing threads f rt e = rw e refl
  runs_on inside cpus multi_thread_no_work_stealing threads f rt e =
      rw
        (built "Failed to build multi-threaded runtime"
          "Failed to build multi-threaded no-work-stealing runtime"
          (t.worker_threads (thread_count cpus threads) t.new_multi_thread) rt e)
        refl

  -- `run` and `create_runtime` agree: where `create_runtime` gives a runtime for a type and a number
  -- of threads, `run` runs the future on that runtime.
  pub run-create_runtime :
      (inside : Bool) (cpus : ℕ) (r : ProtocolRuntime) (f : t.Future) (rt : t.Runtime)
      → create_runtime cpus r.runtime_type r.threads ≡ gives rt
      → run inside cpus r f ≡ t.block_on inside rt f
  unfolding run
  run-create_runtime inside cpus r f rt e = runs_on inside cpus r.runtime_type r.threads f rt e

  blocked_inside :
      (f : t.Future) (o : Outcome t.Runtime) → (text : String) × (blocked true f o ≡ panics text)
  unfolding blocked
  blocked_inside f (gives r) = t.block_on_inside r f
  blocked_inside f (panics text) = (text, refl)

  type_panics :
      (cpus : ℕ) (kind : RuntimeType) (threads : Option ℕ) (f : t.Future)
      → (text : String) × (run_type true cpus kind threads f ≡ panics text)
  unfolding run_type
  type_panics cpus single_thread threads f = blocked_inside f _
  type_panics cpus multi_thread_work_stealing threads f = blocked_inside f _
  type_panics cpus multi_thread_no_work_stealing threads f = blocked_inside f _

  -- `run_async` never gives the future's output to a task of a tokio runtime: whatever the type, the
  -- threads and the future, the task that awaits it panics.
  pub run_async_panics :
      (cpus : ℕ) (r : ProtocolRuntime) (f : t.Future)
      → (text : String) × (run_async true cpus r f ≡ panics text)
  unfolding run_async run
  run_async_panics cpus r f = type_panics cpus r.runtime_type r.threads f
