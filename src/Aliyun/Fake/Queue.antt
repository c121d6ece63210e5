-- ===== src/Aliyun/Fake/Queue.antt =====
-- The queues of errors of pkg/aliyun/fake.
use le_to_alicloud.Prelude.{Option, none, some, List, [], ◌∷◌}
use le_to_alicloud.Aliyun.Errors.{Error}

-- `pop`: the first error of a queue, if there is one, and the rest
unfoldable pub pop : List Error → Option Error × List Error
pop [] = (none, [])
pop (e ∷ q) = (some e, q)
