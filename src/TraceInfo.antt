-- ===== src/TraceInfo.antt =====
-- What is known of an allocation: include/memhook/traceinfo.h and callstack.h.
use memhook.Prelude.{ℕ, ℤ, List, map}

-- Words are of 64 bits, as on x86_64; a time point is its signed count since the epoch.
pub record TraceInfoBase : Type 0 where
  pub address : ℕ
  pub memsize : ℕ
  pub timestamp : ℤ

pub record CallStackInfoItem : Type 0 where
  pub shl_path : List ℕ
  pub procname : List ℕ
  pub shl_addr : ℕ
  pub ip : ℕ
  pub sp : ℕ
  pub offp : ℕ

abbrev pub CallStackInfo : Type 0
CallStackInfo = List CallStackInfoItem

pub record TraceInfoCallStackItem : Type 0 where
  pub shl_addr : ℕ
  pub ip : ℕ
  pub sp : ℕ
  pub offp : ℕ

-- `BasicTraceInfo`, the record of an allocation in a storage.
pub record TraceInfo : Type 0 where
  pub base : TraceInfoBase
  pub callstack : List TraceInfoCallStackItem

-- `BasicTraceInfo::Builder`
abbrev pub build_item : CallStackInfoItem → TraceInfoCallStackItem
build_item item = record { shl_addr = item.shl_addr; ip = item.ip; sp = item.sp; offp = item.offp }

-- The constructor from a call stack, which keeps the addresses and drops the names.
unfoldable pub trace_info : ℕ → ℕ → ℤ → CallStackInfo → TraceInfo
trace_info address memsize timestamp callstack = record {
  base = record { address = address; memsize = memsize; timestamp = timestamp };
  callstack = map build_item callstack;
}
