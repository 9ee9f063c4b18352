-- ===== src/Console/Command/Table.antt =====
-- The table of commands in bin/console.rs.
use ever_node_tools.Prelude.{◌≡◌, refl, some, All}
use ever_node_tools.Console.Command.{commands, find_command}

-- Every row of the table is the one that its name finds: no name stands twice, so that no arm of the
-- generated matches hides another.
pub find_command-name : All (λ row. find_command row.name ≡ some row) commands
unfolding commands find_command
find_command-name = (
  refl,
  (
    refl,
    (
      refl,
      (
        refl,
        (
          refl,
          (
            refl,
            (
              refl,
              (
                refl,
                (refl, (refl, (refl, (refl, (refl, (refl, (refl, (refl, (refl, (refl, tt)))))))))),
              ),
            ),
          ),
        ),
      ),
    ),
  ),
)
