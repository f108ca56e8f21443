-- ===== src/Logs/Tests.antt =====
-- Logs that are browsed: the 120th of 130 entries.
use korechat.Common.{◌+◌, ◌*◌, ◌/◌, ◌≤◌, ◌<◌, arith}
use korechat.Logs.{opened, limit}
use korechat.Logs.Pages.{turn, at_page, turn_reaches}

turn_reaches_example :
    ((turn (120 / limit) (at_page 130 0 opened)).page * limit ≤ 120)
    × (120 < (turn (120 / limit) (at_page 130 0 opened)).page * limit + limit)
turn_reaches_example = turn_reaches 120 130 opened (omega arith)
