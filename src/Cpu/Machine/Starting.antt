-- ===== src/Cpu/Machine/Starting.antt =====
-- New engines, clones, and the switch for block compilation.
use golinux.Base.{ℕ, refl, Bool, false, none, []}
use golinux.Base.Map.{find}
use golinux.Cpu.Memory.{clone}
use golinux.Cpu.Memory.View.{IsValid}
use golinux.Cpu.Memory.Kept.{CodeKept, SameCode-eq}
use golinux.Cpu.Memory.Clone.{parent, child, parent-view, parent-IsValid, child-IsValid}
use golinux.Cpu.Operand.{Engine}
use golinux.Cpu.Execute.{nop}
use golinux.Cpu.Decode.{Extensions}
use golinux.Cpu.Decode.Reading.{ExtensionsRead}
use golinux.Cpu.Machine.{Machine, set_core}
use golinux.Cpu.Machine.Current.{Onward-core}
use golinux.Cpu.Machine.Tables.{entry}
use golinux.Cpu.Machine.Coherent.{Coherent, Coherent-same}

-- NewEngine, on the memory and registers given: nothing is cached.
unfoldable pub new_engine : Engine → Bool → Machine
new_engine e jit = record {
  core = e;
  stop_requested = false;
  code = λ d. record { decoded = record { instruction = nop; ends_block = false }; len = 0 };
  next_code = 1;
  tables = λ t i. none;
  next_table = 1;
  decode_cache = [];
  cached_table_addr = 0;
  cached_table = none;
  block_jit = jit;
  block_cache = λ s. none;
  generation = 0;
  cached_block_start = 0;
  cached_block = none;
  trace = λ i. 0;
  trace_idx = 0;
}

-- Engine.Clone: the parent, whose pages stay, and the child with copies of them.
unfoldable pub clone_engine : Machine → Machine × Machine
unfolding new_engine
clone_engine m = (
  set_core (record m.core { space = parent m.core.space }) m,
  new_engine (record m.core { space = child m.core.space; cur_instr_end = 0 }) m.block_jit,
)

module _ (ext : Extensions) (fuel : ℕ) where
  pub new_engine-Coherent :
      (e : Engine) (jit : Bool) → IsValid e.space → Coherent ext fuel (new_engine e jit)
  unfolding new_engine entry find
  new_engine-Coherent e jit v = record {
    valid = v;
    tables = record { cached = λ t h. cc; below = λ a t h. cc; apart = λ a b t h. cc };
    entries = λ pc d h. cc;
    slots = λ s b h. cc;
    last = λ b h. cc;
    last_start = λ b h. cc;
  }

parent-CodeKept : (m : Machine) → IsValid m.core.space → CodeKept m.core.space (parent m.core.space)
unfolding clone
parent-CodeKept m v = record {
  valid = parent-IsValid m.core.space v;
  was_clean = λ h. h;
  code = λ h. SameCode-eq (parent-view m.core.space v);
}

module _ (ext : Extensions) (fuel : ℕ) (reads : ExtensionsRead ext) where
  -- With decoders of the vector, VEX and x87 opcodes that only read, Clone of a coherent engine
  -- leaves it coherent, with the caches that it has over a memory whose pages are now copied,
  -- and gives a coherent child.
  pub clone_engine-Coherent :
      (m : Machine)
      → Coherent ext fuel m
      → Coherent ext fuel (clone_engine m).0 × Coherent ext fuel (clone_engine m).1
  unfolding clone_engine entry
  clone_engine-Coherent m c =
      let e : Engine = record m.core { space = parent m.core.space } in
      (
        Coherent-same ext fuel reads m (set_core e m) c
            (Onward-core m (set_core e m) (parent-CodeKept m c.valid) refl refl)
            (record {
              stop_requested = refl;
              block_jit = refl;
              block_cache = refl;
              generation = refl;
              cached_block_start = refl;
              cached_block = refl;
            })
            (record { cached = c.tables.cached; below = c.tables.below; apart = c.tables.apart })
            (λ pc. refl),
        new_engine-Coherent ext fuel
            (record m.core { space = child m.core.space; cur_instr_end = 0 }) m.block_jit
            (child-IsValid m.core.space c.valid),
      )
