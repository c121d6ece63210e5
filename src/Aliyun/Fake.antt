-- ===== src/Aliyun/Fake.antt =====
-- pkg/aliyun/fake: clouds in memory, as the program's own tests use them.
pub mod Queue
pub mod Fc3
pub mod Oss
pub mod Cas
