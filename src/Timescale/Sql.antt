-- ===== src/Timescale/Sql.antt =====
-- The quoting of text for SQL and for the shell: `escapeSqlLiteral` of
-- common/timescale/TimescaleBatchWriter.hpp, `sqlEscape` of services/map_query_api/main.cpp and
-- `shellEscape` of common/timescale/TimescaleReadClient.hpp.
pub mod Literal
use weather_rtos.Base.{ℕ, Bool, true, false, List, [], ◌∷◌, ◌++◌, ◌==◌, if◌then◌else◌}
use weather_rtos.Base.Text.{Text, codes}

unfoldable pub escape_sql_literal : Text → Text
escape_sql_literal [] = []
escape_sql_literal (c ∷ s) =
    let rest = escape_sql_literal s in if c == b'\'' then b'\'' ∷ b'\'' ∷ rest else c ∷ rest

unfoldable pub sql_escape : Text → Text
sql_escape [] = []
sql_escape (c ∷ s) =
    let rest = sql_escape s in if c == b'\'' then b'\'' ∷ b'\'' ∷ rest else c ∷ rest

-- The loop, between the two quotes.
unfoldable pub shell_escape_loop : Text → Text
shell_escape_loop [] = []
shell_escape_loop (c ∷ s) =
    let rest = shell_escape_loop s in
    if c == b'\'' then b'\'' ∷ b'\\' ∷ b'\'' ∷ b'\'' ∷ rest else c ∷ rest

unfoldable pub shell_escape : Text → Text
unfolding shell_escape_loop
shell_escape s = b'\'' ∷ (shell_escape_loop s ++ b'\'' ∷ [])
