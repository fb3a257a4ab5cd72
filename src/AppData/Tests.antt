-- ===== src/AppData/Tests.antt =====
-- A container of numbers with two types, one of them read by a guard.
use mlua.Base.{ℕ, [], ◌∷◌, none, some, false, Option, ◌==◌, if◌then◌else◌}
use mlua.AppData.{ok, err, panics, readers}
use mlua.AppData
use mlua.AppData.World.{Guard, count}
use mlua.AppData.World
use mlua.AppData.Borrows

abbrev cell : AppData.Flag → Option (AppData.RefCell ℕ)
cell f = some (record { value = 41; flag = f })

-- The type 7 has the value 41.
abbrev filled : World.World ℕ
filled = record {
  app_data = record {
    container = λ k. if k == 7 then cell (readers 0) else none;
    borrow_count = 0;
  };
  guards = [];
}

abbrev reader : Guard
reader = record { id = 7; mutably = false }

abbrev read : World.World ℕ
read = record {
  app_data = record {
    container = λ k. if k == 7 then cell (readers 1) else filled.app_data.container k;
    borrow_count = 1;
  };
  guards = reader ∷ [];
}

filled-Reach : World.Reach ℕ filled
unfolding AppData.insert AppData.set AppData.new_cell
filled-Reach = World.next World.start (World.insert 7 41)

read-Reach : World.Reach ℕ read
unfolding AppData.borrow AppData.set AppData.cell_borrow
read-Reach = World.next filled-Reach (World.borrow reader)

Reach-IsGuarded_example : Borrows.IsGuarded ℕ read
Reach-IsGuarded_example = Borrows.Reach-IsGuarded ℕ read-Reach
